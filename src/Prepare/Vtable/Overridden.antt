-- ===== src/Prepare/Vtable/Overridden.antt =====
-- The method of the superclass that a method of a class overrides (`override_superclass_method` in
-- korp_src/class/class_prepare.cpp), against its description in Promise.
use mini_jvm.Common.{
  ℕ, zero, suc, ◌<◌, ◌≡◌, refl, sym, ap, ◌∙◌, subst, ◌⊎◌, inl, inr, List, [], ◌∷◌, Bool, true,
  false, not, ◌&&◌, ◌==◌, ==_iff, if◌then◌else◌, get_elem?, Option, none, some, arith, Bool-cases,
}
use mini_jvm.Prepare.Vtable.{
  Method, Store, Super, Class, method_is_default, method_equal_signature, find_overridden, found_in,
  superclass_method,
}
use mini_jvm.Prepare.Vtable.Kept.{Kept}
use mini_jvm.Prepare.Vtable.Promise.{Overrides}
use mini_jvm.Prepare.Vtable.Placement.{Signed, equal_signature-Signed}

-- `a` stands in the slot `j`, and is the first method with the signature of `m`.
abbrev FirstSigned : Store → Method → List ℕ → ℕ → ℕ → Type 0
FirstSigned store m info j a =
    (get_elem? info j ≡ some a)
    × Signed m (store a)
    × ((i c : ℕ) → i < j → get_elem? info i ≡ some c → ¬ Signed m (store c))

abbrev Visible : Store → Bool → ℕ → Type 0
Visible store same_package a = (same_package ≡ true) ⊎ (method_is_default (store a) ≡ false)

Signed-equal : (m m' : Method) → Signed m m' → method_equal_signature m m' ≡ true
Signed-equal m m' (n, d) = ground arith

unsigned-unequal : (m m' : Method) → ¬ Signed m m' → method_equal_signature m m' ≡ false
unsigned-unequal m m' h = elim (Bool-cases (method_equal_signature m m')) [
  | inl e ↦ absurd (h (equal_signature-Signed m m' e))
  | inr e ↦ e
]

hidden_false :
    (store : Store) (same : Bool) (a : ℕ)
    → Visible store same a
    → (not same && method_is_default (store a)) ≡ false
hidden_false store same a (inl e) = rw e refl
hidden_false store true a (inr e) = refl
hidden_false store false a (inr e) = e

Visible-when :
    (store : Store) (same : Bool) (a : ℕ)
    → (not same && method_is_default (store a)) ≡ false
    → Visible store same a
Visible-when store true a e = inl refl
Visible-when store false a e = inr e

find_overridden-first :
    (store : Store) (same : Bool) (m : Method) (info : List ℕ) (j a : ℕ)
    → FirstSigned store m info j a
    → Visible store same a
    → find_overridden store same m info ≡ some a
unfolding find_overridden
find_overridden-first store same m [] j a (g, _, _) v = cc
find_overridden-first store same m (c ∷ info) zero a (g, s, _) v =
    let q : a ≡ c = cc in
    rw
      (
        Signed-equal m (store c) (subst (λ x. Signed m (store x)) q s),
        hidden_false store same c (subst (Visible store same) q v),
      )
      (ap some (sym q))
find_overridden-first store same m (c ∷ info) (suc j) a (g, s, n) v =
    rw (unsigned-unequal m (store c) (n 0 c (omega arith) refl))
      (find_overridden-first store same m info j a (g, s, λ i d l h. n (suc i) d (omega arith) h) v)

first_behind :
    (store : Store) (m : Method) (info : List ℕ) (j a c : ℕ)
    → ¬ Signed m (store c)
    → FirstSigned store m info j a
    → (i d : ℕ) → i < suc j
    → get_elem? (c ∷ info) i ≡ some d
    → ¬ Signed m (store d)
first_behind store m info j a c n f zero d l h s =
    let q : c ≡ d = cc in n (subst (λ x. Signed m (store x)) (sym q) s)
first_behind store m info j a c n (_, _, f) (suc i) d l h s = f i d (omega arith) h s

find_overridden-FirstSigned :
    (store : Store) (same : Bool) (m : Method) (info : List ℕ) (a : ℕ)
    → find_overridden store same m info ≡ some a
    → (j : ℕ) × FirstSigned store m info j a × Visible store same a
unfolding find_overridden
find_overridden-FirstSigned store same m [] a h = cc
find_overridden-FirstSigned store same m (c ∷ info) a h =
    elim (Bool-cases (method_equal_signature m (store c))) [
      | inl e ↦ elim (Bool-cases (not same && method_is_default (store c))) [
        | inl d ↦ let impossible : none ≡ some a = rw (e, d) at h in cc
        | inr d ↦
            let found : some c ≡ some a = rw (e, d) at h in
            let q : c ≡ a = cc in
            subst (λ x. (j : ℕ) × FirstSigned store m (c ∷ info) j x × Visible store same x) q
              (
                0,
                (refl, equal_signature-Signed m (store c) e, λ i x l. absurd (omega arith)),
                Visible-when store same c d,
              )
      ]
      | inr e ↦
          let (j, f, v) = find_overridden-FirstSigned store same m info a (rw e at h) in
          let differs : ¬ Signed m (store c) =
            λ s. true_false (sym (Signed-equal m (store c) s) ∙ e) in
          (suc j, (f.0, f.1, first_behind store m info j a c differs f), v)
    ]
  where
    true_false : true ≡ false → ⊥
    true_false h = cc

-- The two descriptions of the overridden method.
pub superclass_method-Overrides :
    (store : Store) (kclass : Class) (b a : ℕ)
    → superclass_method store kclass b ≡ some a
    → (j : ℕ) × (o : Overrides store kclass b j) × (o.overridden ≡ a)
unfolding superclass_method found_in
superclass_method-Overrides store kclass b a h = elim (Bool-cases kclass.is_interface) [
  | inl e ↦ let impossible : none ≡ some a = rw e at h in cc
  | inr e ↦ in_super kclass.super_class refl (rw e at h)
]
  where
    in_super :
        (super : Option Super)
        → kclass.super_class ≡ super
        → found_in store kclass.package_name b super ≡ some a
        → (j : ℕ) × (o : Overrides store kclass b j) × (o.overridden ≡ a)
    in_super none q h = cc
    in_super (some super) q h =
        let (j, (g, s, n), v) =
          find_overridden-FirstSigned store (kclass.package_name == super.package_name) (store b)
            super.vtable_info a h in
        (
          j,
          record {
            overridden = a;
            at = rw q g;
            signed = s;
            first = λ i c l k. n i c l (rw q at k);
            visible = elim v [
              | inl same ↦ inl (rw q ((==_iff _ _).0 same))
              | inr public ↦ inr public
            ];
          },
          refl,
        )

pub Overrides-superclass_method :
    (store : Store) (kclass : Class) (b j : ℕ)
    → kclass.is_interface ≡ false
    → (o : Overrides store kclass b j) → superclass_method store kclass b ≡ some o.overridden
unfolding superclass_method found_in
Overrides-superclass_method store kclass b j e o = rw e (in_super kclass.super_class refl)
  where
    in_super :
        (super : Option Super)
        → kclass.super_class ≡ super
        → found_in store kclass.package_name b super ≡ some o.overridden
    in_super none q = let impossible : none ≡ some o.overridden = rw q at o.at in cc
    in_super (some super) q =
        find_overridden-first store (kclass.package_name == super.package_name) (store b)
          super.vtable_info j o.overridden
          (rw q at o.at, o.signed, λ i c l k. o.first i c l (rw q k))
          (elim o.visible [
            | inl same ↦ inl ((==_iff _ _).1 (rw q at same))
            | inr public ↦ inr public
          ])

-- The choice reads only what the loop keeps.
find_overridden-Kept :
    {store store' : Store}
    → Kept store store'
    → (same : Bool) (b : ℕ) (info : List ℕ)
    → find_overridden store' same (store' b) info ≡ find_overridden store same (store b) info
unfolding find_overridden
find_overridden-Kept k same b [] = refl
find_overridden-Kept k same b (c ∷ info) = rw (
  (k b).name,
  (k b).descriptor,
  (k c).name,
  (k c).descriptor,
  (k c).modifier,
  find_overridden-Kept k same b info,
)

pub superclass_method-Kept :
    {store store' : Store}
    → Kept store store'
    → (kclass : Class) (b : ℕ)
    → superclass_method store' kclass b ≡ superclass_method store kclass b
unfolding superclass_method found_in
superclass_method-Kept {store} {store'} k kclass b = in_super kclass.super_class
  where
    in_super :
        (super : Option Super)
        → (if kclass.is_interface then none else found_in store' kclass.package_name b super)
          ≡ (if kclass.is_interface then none else found_in store kclass.package_name b super)
    in_super none = refl
    in_super (some super) =
        rw (find_overridden-Kept k (kclass.package_name == super.package_name) b super.vtable_info)
