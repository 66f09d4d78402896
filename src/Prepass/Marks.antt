-- ===== src/Prepass/Marks.antt =====
-- The marks of the visited instructions (`bcinst_info` in korp_src/ia32_jit/prepass.cpp), which a part of
-- the walk only adds to.
use mini_jvm.Common.{
  ℕ, zero, suc, ◌≤◌, ◌≡◌, refl, ap, ◌∙◌, subst, inl, inr, List, [], ◌∷◌, Bool, true, false, ◌==◌,
  ==_iff, length, get_elem?, get_elem?-lt, get_elem?-set_self, get_elem?-set_ne, set, some, Run, ok,
  ◌>>=◌, >>=-eq-ok, ok-injective, Ends, bind-Ends_of, ok-Ends, if◌then◌else◌, Bool-cases, arith,
}

-- The entries of `bcinst_info` that are not visited.
unfoldable pub unvisited : List Bool → ℕ
unvisited [] = 0
unvisited (true ∷ marks) = unvisited marks
unvisited (false ∷ marks) = suc (unvisited marks)

pub unvisited-set :
    (marks : List Bool) (i : ℕ)
    → get_elem? marks i ≡ some false
    → suc (unvisited (set marks i true)) ≡ unvisited marks
unfolding unvisited
unvisited-set [] i h = cc
unvisited-set (b ∷ marks) zero h = let e : b ≡ false = cc in rw e refl
unvisited-set (true ∷ marks) (suc i) h = unvisited-set marks i h
unvisited-set (false ∷ marks) (suc i) h = ap suc (unvisited-set marks i h)

pub unvisited-length : (marks : List Bool) → unvisited marks ≤ length marks
unfolding unvisited
unvisited-length [] = omega arith
unvisited-length (true ∷ marks) = omega (arith, unvisited-length marks)
unvisited-length (false ∷ marks) = omega (arith, unvisited-length marks)

-- Every mark stays where it is, and no more instructions are unvisited.
pub record Keeps (before after : List Bool) : Type 0 where
  pub stays : (i : ℕ) → get_elem? before i ≡ some true → get_elem? after i ≡ some true
  pub fewer : unvisited after ≤ unvisited before

pub Keeps-refl : {marks : List Bool} → Keeps marks marks
Keeps-refl = record { stays = λ i h. h; fewer = omega arith }

pub Keeps-trans : {a b c : List Bool} → Keeps a b → Keeps b c → Keeps a c
Keeps-trans h k = record {
  stays = λ i p. k.stays i (h.stays i p);
  fewer = omega (arith, h.fewer, k.fewer);
}

pub set-Keeps :
    (marks : List Bool) (i : ℕ) → get_elem? marks i ≡ some false → Keeps marks (set marks i true)
set-Keeps marks i e = record {
  stays = λ j p. elim (Bool-cases (i == j)) [
    | inl b ↦
        subst (λ k. get_elem? (set marks i true) k ≡ some true) ((==_iff i j).0 b)
          (get_elem?-set_self marks i true (get_elem?-lt marks i e))
    | inr b ↦ get_elem?-set_ne marks true (λ q. absurd (ground arith)) ∙ p
  ];
  fewer = omega (arith, unvisited-set marks i e);
}

-- A part that never runs out of fuel, and keeps the marks `before` in what it returns.
pub record Onward {ℓ} {A : Type ℓ} (visits : A → List Bool) (before : List Bool) (m : Run A)
    : Type ℓ where
  pub ends : Ends m
  pub keeps : (a : A) → m ≡ ok a → Keeps before (visits a)

module _ {ℓ} {A : Type ℓ} {visits : A → List Bool} {before : List Bool} where
  pub ok-Onward : {a : A} → Keeps before (visits a) → Onward visits before (ok a)
  ok-Onward {a} h = record {
    ends = ok-Ends a;
    keeps = λ b e. subst (λ x. Keeps before (visits x)) (ok-injective e) h;
  }

  pub if-Onward :
      (b : Bool) {m m' : Run A}
      → Onward visits before m
      → Onward visits before m'
      → Onward visits before (if b then m else m')
  if-Onward true h k = h
  if-Onward false h k = k

  pub Onward-from :
      {m : Run A} {between : List Bool}
      → Keeps before between
      → Onward visits between m
      → Onward visits before m
  Onward-from k h = record { ends = h.ends; keeps = λ a e. Keeps-trans k (h.keeps a e) }

module _ {ℓ κ} {A : Type ℓ} {B : Type κ} {visits : B → List Bool} {before : List Bool} where
  -- The second part may know what the first one returns.
  pub bind-Onward_of :
      (m : Run A) (f : A → Run B)
      → Ends m
      → ((a : A) → m ≡ ok a → Onward visits before (f a))
      → Onward visits before (m >>= f)
  bind-Onward_of m f h k = record {
    ends = bind-Ends_of m f h (λ a e. (k a e).ends);
    keeps = λ b e. let (a, p, q) = >>=-eq-ok m f e in (k a p).keeps b q;
  }

  pub bind-Onward :
      {first : A → List Bool} {start : List Bool} (m : Run A) (f : A → Run B)
      → Onward first start m
      → ((a : A) → Keeps start (first a) → Onward visits before (f a))
      → Onward visits before (m >>= f)
  bind-Onward m f h g = bind-Onward_of m f h.ends (λ a e. g a (h.keeps a e))
