-- ===== src/Prepare/Vtable/Slots.antt =====
-- The loop of `prepare_methods` (korp_src/class/class_prepare.cpp) as a relation: what a turn does
-- with a method of the class, and what all turns keep.
use mini_jvm.Common.{
  ℕ, suc, ◌≡◌, sym, inl, inr, List, [], ◌∷◌, Bool, true, false, not, ◌&&◌, ◌==◌, get_elem?, Option,
  some, none, Bool-cases, Option-cases,
}
use mini_jvm.Prepare.Vtable.{
  Method, Store, Super, Class, method_is_static, method_is_default, method_equal_signature,
  find_overridden, override, found_in, tables_of, superclass_method, override_superclass_method,
  Placing, fresh, place_method, place_methods, super_tables,
}

-- A turn with the method `b`, over the slots `info` of the superclass.
pub data Step (info : List ℕ) (b : ℕ) (p : Placing) : Placing → Type 0 where
  skipped : method_is_static (p.store b) ≡ true → Step info b p p
  overriding :
      (a j : ℕ)
      → method_is_static (p.store b) ≡ false
      → get_elem? info j ≡ some a
      → method_equal_signature (p.store b) (p.store a) ≡ true
      → Step info b p (record p { store = override p.store b a })
  placed : method_is_static (p.store b) ≡ false → Step info b p (fresh b p)

pub data Steps (info : List ℕ) : List ℕ → Placing → Placing → Type 0 where
  done : {p : Placing} → Steps info [] p p
  turn :
      {b : ℕ} {bs : List ℕ} {p q r : Placing}
      → Step info b p q
      → Steps info bs q r
      → Steps info (b ∷ bs) p r

find_overridden-some :
    (store : Store) (same : Bool) (m : Method) (info : List ℕ) {a : ℕ}
    → find_overridden store same m info ≡ some a
    → (j : ℕ) × (get_elem? info j ≡ some a) × (method_equal_signature m (store a) ≡ true)
unfolding find_overridden
find_overridden-some store same m [] h = cc
find_overridden-some store same m (c ∷ info) {a} h =
    elim (Bool-cases (method_equal_signature m (store c))) [
      | inl e ↦ elim (Bool-cases (not same && method_is_default (store c))) [
        | inl d ↦ let impossible : none ≡ some a = rw (e, d) at h in cc
        | inr d ↦
            let found : some c ≡ some a = rw (e, d) at h in
            let q : c ≡ a = cc in (0, found, rw (sym q) e)
      ]
      | inr e ↦ let (j, p, q) = find_overridden-some store same m info (rw e at h) in (suc j, p, q)
    ]

found_in-some :
    (store : Store) (own b : ℕ) (super : Option Super) {a : ℕ}
    → found_in store own b super ≡ some a
    → (j : ℕ) × (get_elem? (tables_of super).vtable_info j ≡ some a)
      × (method_equal_signature (store b) (store a) ≡ true)
unfolding found_in
found_in-some store own b none h = cc
found_in-some store own b (some super) h =
    find_overridden-some store (own == super.package_name) (store b) super.vtable_info h

superclass_method-some :
    (store : Store) (kclass : Class) (b : ℕ) {a : ℕ}
    → superclass_method store kclass b ≡ some a
    → (j : ℕ) × (get_elem? (super_tables kclass).vtable_info j ≡ some a)
      × (method_equal_signature (store b) (store a) ≡ true)
unfolding superclass_method
superclass_method-some store kclass b {a} h = elim (Bool-cases kclass.is_interface) [
  | inl e ↦ let impossible : none ≡ some a = rw e at h in cc
  | inr e ↦ found_in-some store kclass.package_name b kclass.super_class (rw e at h)
]

pub place_method-Step :
    (kclass : Class) (b : ℕ) (p : Placing)
    → Step (super_tables kclass).vtable_info b p (place_method kclass b p)
unfolding place_method override_superclass_method
place_method-Step kclass b p = elim (Bool-cases (method_is_static (p.store b))) [
  | inl e ↦ rw e (skipped e)
  | inr e ↦ elim (Option-cases (superclass_method p.store kclass b)) [
    | inl n ↦ rw (e, n) (placed e)
    | inr (a, s) ↦
        let (j, q, r) = superclass_method-some p.store kclass b s in
        rw (e, s) (overriding a j e q r)
  ]
]

pub place_methods-Steps :
    (kclass : Class) (bs : List ℕ) (p : Placing)
    → Steps (super_tables kclass).vtable_info bs p (place_methods kclass bs p)
unfolding place_methods
place_methods-Steps kclass [] p = done
place_methods-Steps kclass (b ∷ bs) p =
    turn (place_method-Step kclass b p) (place_methods-Steps kclass bs (place_method kclass b p))
