-- ===== src/Prepare/Vtable/Target.antt =====
-- The slot that `prepare_methods` (korp_src/class/class_prepare.cpp) gives to a method that overrides one
-- of the superclass, and to one that does not.
use mini_jvm.Common.{
  ℕ, ◌<◌, ◌≤◌, ◌≡◌, refl, sym, ap, ◌∙◌, subst, ◌⊎◌, inl, inr, List, [], ◌∷◌, false, length, none,
  some, Option-cases, Memᴰ, arith,
}
use mini_jvm.Prepare.Vtable.{
  Store, Class, method_is_static, override, superclass_method, override_superclass_method,
  super_tables, Placing, fresh, place_method, place_methods,
}
use mini_jvm.Prepare.Vtable.Slots.{place_methods-Steps, place_method-Step}
use mini_jvm.Prepare.Vtable.Kept.{Step-Kept, override-offset_self, Step-offset, Steps-offset}
use mini_jvm.Prepare.Vtable.Promise.{Overrides}
use mini_jvm.Prepare.Vtable.Placement.{IsVtable, At, Ready, Ready-Step, placed-At}
use mini_jvm.Prepare.Vtable.Overridden.{
  superclass_method-Overrides, Overrides-superclass_method, superclass_method-Kept,
}

place_method-fresh :
    (kclass : Class) (b : ℕ) (p : Placing)
    → method_is_static (p.store b) ≡ false
    → superclass_method p.store kclass b ≡ none
    → place_method kclass b p ≡ fresh b p
unfolding place_method override_superclass_method
place_method-fresh kclass b p n e = rw (n, e) refl

place_method-override :
    (kclass : Class) (b a : ℕ) (p : Placing)
    → method_is_static (p.store b) ≡ false
    → superclass_method p.store kclass b ≡ some a
    → place_method kclass b p ≡ record p { store = override p.store b a }
unfolding place_method override_superclass_method
place_method-override kclass b a p n e = rw (n, e) refl

module _ (first : ℕ) (kclass : Class) where
  -- Where a method goes: to the slot of the one that it overrides, or behind all slots of the
  -- superclass.
  abbrev pub Target : Store → Store → ℕ → Type 0
  Target store store' b =
      ((a : ℕ) × (superclass_method store kclass b ≡ some a)
        × ((store' b).offset ≡ (store a).offset))
      ⊎ ((superclass_method store kclass b ≡ none)
          × (j : ℕ) × At first store' b j
          × (length (super_tables kclass).vtable_info ≤ j))

  head-Target :
      (b : ℕ) (bs : List ℕ) (p : Placing)
      → Ready first (super_tables kclass).vtable_info (b ∷ bs) p
      → method_is_static (p.store b) ≡ false
      → Target p.store (place_methods kclass bs (place_method kclass b p)).store b
  head-Target b bs p h n = elim (Option-cases (superclass_method p.store kclass b)) [
    | inl e ↦ inr (
      e,
      p.num,
      subst (λ q. At first (place_methods kclass bs q).store b p.num)
          (sym (place_method-fresh kclass b p n e))
          (placed-At first (super_tables kclass).vtable_info
            (place_methods-Steps kclass bs (fresh b p)) h),
      h.behind,
    )
    | inr (a, e) ↦ inl (
      a,
      e,
      Steps-offset (place_methods-Steps kclass bs (place_method kclass b p)) b h.distinct.0
          ∙ ap (λ q. (q.store b).offset) (place_method-override kclass b a p n e)
          ∙ override-offset_self p.store b a,
    )
  ]

  -- What comes before the turn of a method does not matter.
  later-Target :
      (c b : ℕ) (bs : List ℕ) (p : Placing) (store' : Store)
      → Ready first (super_tables kclass).vtable_info (c ∷ bs) p
      → Target (place_method kclass c p).store store' b
      → Target p.store store' b
  later-Target c b bs p store' h target =
      let s = place_method-Step kclass c p in
      let same = superclass_method-Kept (Step-Kept s) kclass b in
      elim target [
        | inl (a, e, o) ↦
            let (j, over, q) = superclass_method-Overrides p.store kclass b a (sym same ∙ e) in
            let g = over.at ∙ ap some q in
            inl (a, sym same ∙ e, o ∙ Step-offset s a (λ z. h.own j a g (Memᴰ.head z)))
        | inr (e, j, at, le) ↦ inr (sym same ∙ e, j, at, le)
      ]

  pub place_methods-Target :
      (bs : List ℕ) (p : Placing)
      → Ready first (super_tables kclass).vtable_info bs p
      → (b : ℕ) → Memᴰ b bs
      → method_is_static (p.store b) ≡ false
      → Target p.store (place_methods kclass bs p).store b
  unfolding place_methods
  place_methods-Target [] p h b m n = elim m [ ]
  place_methods-Target (c ∷ bs) p h b (Memᴰ.head e) n =
      subst (λ x. Target p.store (place_methods kclass bs (place_method kclass c p)).store x)
        (sym e) (head-Target c bs p h (rw e at n))
  place_methods-Target (c ∷ bs) p h b (Memᴰ.tail m) n =
      let s = place_method-Step kclass c p in
      let n' : method_is_static ((place_method kclass c p).store b) ≡ false =
        rw (Step-Kept s b).modifier n in
      later-Target c b bs p (place_methods kclass (c ∷ bs) p).store h (
        place_methods-Target bs (place_method kclass c p)
          (Ready-Step first (super_tables kclass).vtable_info s h) b m n')

  module _ (store store' : Store)
      (is_vtable : IsVtable first store (super_tables kclass).vtable_info)
      (no_interface : kclass.is_interface ≡ false) where
    -- An overriding method has the offset of the slot that it overrides.
    pub Overrides-At :
        (b j : ℕ) → Target store store' b → Overrides store kclass b j → At first store' b j
    Overrides-At b j target o =
        let found = Overrides-superclass_method store kclass b j no_interface o in
        elim target [
          | inl (a, e, same) ↦
              let one : some o.overridden ≡ some a = sym found ∙ e in
              let q : o.overridden ≡ a = cc in
              same ∙ ap (λ x. (store x).offset) (sym q) ∙ is_vtable j o.overridden o.at
          | inr (e, _, _, _) ↦
              let impossible : some o.overridden ≡ none = sym found ∙ e in absurd (cc)
        ]

    -- A method that has the offset of a slot of the superclass overrides that slot.
    pub At-Overrides :
        (b j : ℕ)
        → Target store store' b
        → At first store' b j
        → j < length (super_tables kclass).vtable_info
        → Overrides store kclass b j
    At-Overrides b j target at lt = elim target [
      | inl (a, e, same) ↦
          let (i, o, q) = superclass_method-Overrides store kclass b a e in
          let there = is_vtable i a (o.at ∙ ap some q) in
          let i_eq : i ≡ j = omega (arith, there, same, at) in
          subst (Overrides store kclass b) i_eq o
      | inr (e, k, at', le) ↦ absurd (omega (arith, at, at', le, lt))
    ]
