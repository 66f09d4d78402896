-- ===== src/Hierarchy/Lookup.antt =====
-- The recursive member lookups (korp_src/class/class_utils.cpp).
use mini_jvm.Common.{
  ℕ, zero, suc, ◌<◌, ◌≡◌, ◌≢◌, refl, ap, ◌==◌, ◌&&◌, Bool-cases, true, false, ◌⊎◌, inl, inr, List,
  [], ◌∷◌, Option, none, some, ok, fault, out_of_fuel, arith,
}
use mini_jvm.Hierarchy.{
  Class, Member, Memory, find_member, lookup_supers, lookup_interfaces, lookup_recursive,
}
use mini_jvm.Hierarchy.Subclass.{IsRanked}

abbrev pub Called : ℕ → ℕ → Member → Type 0
Called n d m = (m.name ≡ n) × (m.descriptor ≡ d)

-- `m` is the first member of a list with the name and the descriptor.
pub data FirstCalled (n d : ℕ) (m : Member) : List Member → Type 0 where
  here : {x : Member} {l : List Member} → x ≡ m → Called n d x → FirstCalled n d m (x ∷ l)
  later :
      {x : Member} {l : List Member}
      → ¬ Called n d x
      → FirstCalled n d m l
      → FirstCalled n d m (x ∷ l)

-- No member of the list has them.
abbrev pub NoneCalled : ℕ → ℕ → List Member → Type 0
NoneCalled n d [] = Unit
NoneCalled n d (x ∷ l) = ¬ Called n d x × NoneCalled n d l

Called-true : (n d : ℕ) (x : Member) → Called n d x → (x.name == n && x.descriptor == d) ≡ true
Called-true n d x (p, q) = ground arith

Called-false : (n d : ℕ) (x : Member) → ¬ Called n d x → (x.name == n && x.descriptor == d) ≡ false
Called-false n d x h = elim (Bool-cases (x.name == n && x.descriptor == d)) [
  | inl b ↦ absurd (h (ground arith, ground arith))
  | inr b ↦ b
]

-- `find_member` finds the first one.
find_member-first :
    (n d : ℕ) (m : Member) (l : List Member) → FirstCalled n d m l → find_member n d l ≡ some m
unfolding find_member
find_member-first n d m [] h = elim h [ ]
find_member-first n d m (x ∷ l) (here e c) = rw (Called-true n d x c) (ap some e)
find_member-first n d m (x ∷ l) (later c rest) =
    rw (Called-false n d x c) (find_member-first n d m l rest)

find_member-none : (n d : ℕ) (l : List Member) → NoneCalled n d l → find_member n d l ≡ none
unfolding find_member
find_member-none n d [] h = refl
find_member-none n d (x ∷ l) (c, h) = rw (Called-false n d x c) (find_member-none n d l h)

-- The member that a class has by its own or its superclasses' declarations, the nearest first.
pub data Inherits (memory : Memory) (members : Class → List Member) (n d : ℕ) (r : Option Member)
    : ℕ → Type 0 where
  own :
      {c : ℕ} (m : Member)
      → FirstCalled n d m (members (memory c))
      → r ≡ some m
      → Inherits memory members n d r c
  above :
      {c : ℕ} (s : ℕ)
      → NoneCalled n d (members (memory c))
      → (memory c).super_class ≡ some s
      → Inherits memory members n d r s
      → Inherits memory members n d r c
  nowhere :
      {c : ℕ}
      → NoneCalled n d (members (memory c))
      → (memory c).super_class ≡ none
      → r ≡ none
      → Inherits memory members n d r c

module _ (memory : Memory) (rank : ℕ → ℕ) (ranked : IsRanked memory rank)
    (members : Class → List Member) (n d : ℕ) where
  -- The loop up the superclasses returns that member, or is still under way.
  Inherits-run :
      (fuel c : ℕ) (r : Option Member)
      → Inherits memory members n d r c
      → (lookup_supers memory members fuel c n d ≡ ok r)
        ⊎ (lookup_supers memory members fuel c n d ≡ fault out_of_fuel)
  unfolding lookup_supers
  Inherits-run zero c r i = inr refl
  Inherits-run (suc fuel) c r (own m e q) = inl (rw (find_member-first n d m _ e, q, lookup_supers))
  Inherits-run (suc fuel) c r (nowhere e top q) =
      inl (rw (find_member-none n d _ e, top, q, lookup_supers))
  Inherits-run (suc fuel) c r (above s e up_s i) =
      rw (find_member-none n d _ e, up_s, lookup_supers) (Inherits-run fuel s r i)

  Inherits-enough :
      (fuel c : ℕ) (r : Option Member)
      → rank c < fuel
      → Inherits memory members n d r c
      → lookup_supers memory members fuel c n d ≡ ok r
  unfolding lookup_supers
  Inherits-enough zero c r h i = absurd (omega arith)
  Inherits-enough (suc fuel) c r h (own m e q) = rw (find_member-first n d m _ e, q, lookup_supers)
  Inherits-enough (suc fuel) c r h (nowhere e top q) =
      rw (find_member-none n d _ e, top, q, lookup_supers)
  Inherits-enough (suc fuel) c r h (above s e up_s i) =
      rw (find_member-none n d _ e, up_s, lookup_supers)
        (Inherits-enough fuel s r (omega (arith, ranked c s up_s)) i)

  -- Where no class is above itself, a member of the class or of a superclass is found, the nearest
  -- one, within the rank of the class; without interfaces the absence of one is reported as well.
  pub lookup_recursive-Inherits :
      (fuel c : ℕ) (r : Option Member)
      → rank c < fuel
      → Inherits memory members n d r c
      → (r ≢ none) ⊎ ((memory c).interface_info ≡ [])
      → lookup_recursive memory members (suc fuel) c n d ≡ ok r
  unfolding lookup_recursive lookup_interfaces
  lookup_recursive-Inherits fuel c (some m) h i q = rw (Inherits-enough fuel c (some m) h i)
  lookup_recursive-Inherits fuel c none h i (inl q) = absurd (q refl)
  lookup_recursive-Inherits fuel c none h i (inr q) = rw (Inherits-enough fuel c none h i, q)

  -- If neither the class nor a superclass has the member, and the class declares an interface, the
  -- lookup never ends: it asks the class itself again, and never looks at the interface, whatever
  -- that declares.
  pub lookup_recursive-diverges :
      (fuel c i : ℕ) (rest : List ℕ)
      → Inherits memory members n d none c
      → (memory c).interface_info ≡ i ∷ rest
      → lookup_recursive memory members fuel c n d ≡ fault out_of_fuel
  unfolding lookup_recursive lookup_interfaces
  lookup_recursive-diverges zero c i rest h e = refl
  lookup_recursive-diverges (suc fuel) c i rest h e = elim (Inherits-run fuel c none h) [
    | inl found ↦ rw (found, e, lookup_recursive-diverges fuel c i rest h e)
    | inr more ↦ rw more
  ]
