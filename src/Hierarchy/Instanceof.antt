-- ===== src/Hierarchy/Instanceof.antt =====
-- `java_instanceof_class` (korp_src/utils/utils.cpp) against the subtype relation.
use mini_jvm.Common.{
  ℕ, zero, suc, ◌+◌, ◌<◌, ◌≤◌, ◌≡◌, refl, sym, ◌⊎◌, inl, inr, List, [], ◌∷◌, Bool, true, false,
  ◌==◌, ==_iff, Option, none, some, Option-cases, Bool-cases, Run, arith, ap, subst,
}
use mini_jvm.Hierarchy.{
  Memory, class_is_interface, any_interface, interface_loop, java_instanceof_class,
}
use mini_jvm.Hierarchy.Subclass.{
  Extends, same, up, Decides, IsRanked, mids_agree, is_subclass-Decides,
}

abbrev pub Listed : ℕ → List ℕ → Type 0
Listed i [] = ⊥
Listed i (x ∷ l) = (i ≡ x) ⊎ Listed i l

-- `kclass` is the interface itself, or a class on the way up from it declares an interface that
-- is, or extends, `kclass`.
pub data Implements (memory : Memory) (kclass : ℕ) : ℕ → Type 0 where
  itself : {c : ℕ} → c ≡ kclass → Implements memory kclass c
  declares :
      {c : ℕ} (d i : ℕ)
      → Extends memory d c
      → Listed i (memory d).interface_info
      → Implements memory kclass i
      → Implements memory kclass c

any_interface-Decides :
    (test : ℕ → Run Bool) (P : ℕ → Type 0) (l : List ℕ)
    → ((i : ℕ) → Listed i l → Decides (test i) (P i))
    → Decides (any_interface test l) ((i : ℕ) × Listed i l × P i)
unfolding any_interface
any_interface-Decides test P [] h = inr (refl, λ q. q.1)
any_interface-Decides test P (x ∷ l) h = elim (h x (inl refl)) [
  | inl (e, p) ↦ inl (rw e, (x, inl refl, p))
  | inr (e, n) ↦ elim (any_interface-Decides test P l (λ i m. h i (inr m))) [
    | inl (r, (i, m, p)) ↦ inl (rw e r, (i, inr m, p))
    | inr (r, no_rest) ↦ inr (
      rw e r,
      λ q. elim (q.1) [ inl at_x ↦ n (subst P at_x q.2) | inr m ↦ no_rest (q.0, m, q.2) ],
    )
  ]
]

module _ (memory : Memory) (rank : ℕ → ℕ) (ranked : IsRanked memory rank) (test : ℕ → Run Bool)
    (P : ℕ → Type 0) where
  -- Some class on the way up from `c` declares an interface with `P`.
  abbrev Declares : ℕ → Type 0
  Declares c = (d : ℕ) × (i : ℕ) × Extends memory d c × Listed i (memory d).interface_info × P i

  Declares-top :
      {c : ℕ}
      → (memory c).super_class ≡ none
      → ¬ ((i : ℕ) × Listed i (memory c).interface_info × P i)
      → ¬ Declares c
  Declares-top top n (d, i, same e, m, p) =
      n (i, subst (λ x. Listed i (memory x).interface_info) e m, p)
  Declares-top top n (d, i, up mid e x, m, p) = absurd (cc)

  Declares-up :
      {c : ℕ} (s : ℕ)
      → (memory c).super_class ≡ some s
      → ¬ ((i : ℕ) × Listed i (memory c).interface_info × P i)
      → ¬ Declares s
      → ¬ Declares c
  Declares-up s e n above (d, i, same q, m, p) =
      n (i, subst (λ x. Listed i (memory x).interface_info) q m, p)
  Declares-up s e n above (d, i, up mid e' x, m, p) =
      above (d, i, subst (Extends memory d) (mids_agree e' e) x, m, p)

  interface_loop-Decides :
      (fuel c : ℕ)
      → rank c < fuel
      → ((d i : ℕ)
          → Extends memory d c
          → Listed i (memory d).interface_info
          → Decides (test i) (P i))
      → Decides (interface_loop memory fuel test c) (Declares c)
  unfolding interface_loop
  interface_loop-Decides zero c h t = absurd (omega arith)
  interface_loop-Decides (suc fuel) c h t =
      elim (any_interface-Decides test P (memory c).interface_info (λ i m. t c i (same refl) m)) [
        | inl (e, (i, m, p)) ↦ inl (rw e, (c, i, same refl, m, p))
        | inr (e, n) ↦ elim (Option-cases ((memory c).super_class)) [
          | inl top ↦ inr (rw (e, top), Declares-top top n)
          | inr (s, q) ↦
              elim (interface_loop-Decides fuel s (omega (arith, ranked c s q))
                (λ d i x m. t d i (up s q x) m)) [
                  | inl (r, (d, i, x, m, p)) ↦ inl (rw (e, q) r, (d, i, up s q x, m, p))
                  | inr (r, above) ↦ inr (rw (e, q) r, Declares-up s q n above)
                ]
        ]
      ]

Extends-rank :
    (memory : Memory) (rank : ℕ → ℕ)
    → IsRanked memory rank
    → {d c : ℕ} → Extends memory d c
    → rank d ≤ rank c
Extends-rank memory rank ranked (same e) = omega (arith, ap rank e)
Extends-rank memory rank ranked {d} {c} (up mid e x) =
    omega (arith, ranked c mid e, Extends-rank memory rank ranked x)

-- A class graph with no cycle through superclasses and declared interfaces, and no array class
-- among the declared interfaces.
pub record IsGraph (memory : Memory) (rank : ℕ → ℕ) : Type 0 where
  pub supers : IsRanked memory rank
  pub interfaces : (c i : ℕ) → Listed i (memory c).interface_info → rank i < rank c
  pub no_array : (c i : ℕ) → Listed i (memory c).interface_info → (memory i).is_array ≡ false

-- In such a graph, for a class or interface that is no array and an interface `kclass`,
-- `java_instanceof_class` ends within the rank of the class and two more rounds, and decides
-- `Implements`.
pub instanceof-interface :
    (memory : Memory) (rank : ℕ → ℕ)
    → IsGraph memory rank
    → (object : Option ℕ) (fuel kc_self kclass : ℕ) → rank kc_self + 1 < fuel
    → (memory kc_self).is_array ≡ false
    → class_is_interface (memory kclass) ≡ true
    → Decides
        (java_instanceof_class memory object fuel kc_self kclass)
        (Implements memory kclass kc_self)
unfolding java_instanceof_class
instanceof-interface memory rank g object zero kc_self kclass h na intf = absurd (omega arith)
instanceof-interface memory rank g object (suc fuel) kc_self kclass h na intf =
    elim (Bool-cases (kc_self == kclass)) [
      | inl e ↦ inl (rw e, itself ((==_iff kc_self kclass).0 e))
      | inr ne ↦
          elim (interface_loop-Decides memory rank g.supers
            (λ i. java_instanceof_class memory object fuel i kclass) (Implements memory kclass) fuel
            kc_self (omega arith)
            (λ d i x m.
              instanceof-interface memory rank g object fuel i kclass
                (omega (arith, g.interfaces d i m, Extends-rank memory rank g.supers x))
                (g.no_array d i m) intf)) [
                  | inl (r, (d, i, x, m, p)) ↦ inl (rw (ne, na, intf) r, declares d i x m p)
                  | inr (r, n) ↦ inr (rw (ne, na, intf) r, not_declared ne n)
                ]
    ]
  where
    not_declared :
        (kc_self == kclass) ≡ false
        → ¬ Declares memory rank g.supers
            (λ i. java_instanceof_class memory object fuel i kclass)
            (Implements memory kclass)
            kc_self
        → ¬ Implements memory kclass kc_self
    not_declared ne n (itself e) = absurd (ground arith)
    not_declared ne n (declares d i x m p) = n (d, i, x, m, p)

-- Where no class is above itself, for a class that is no array and a `kclass` that is no interface,
-- `java_instanceof_class` ends within the rank of the class and two more rounds, and decides
-- whether `kclass` is the class or one of its superclasses.
pub instanceof-class :
    (memory : Memory) (rank : ℕ → ℕ)
    → IsRanked memory rank
    → (object : Option ℕ) (fuel kc_self kclass : ℕ) → rank kc_self + 1 < fuel
    → (memory kc_self).is_array ≡ false
    → class_is_interface (memory kclass) ≡ false
    → Decides
        (java_instanceof_class memory object fuel kc_self kclass)
        (Extends memory kclass kc_self)
unfolding java_instanceof_class
instanceof-class memory rank g object zero kc_self kclass h na intf = absurd (omega arith)
instanceof-class memory rank g object (suc fuel) kc_self kclass h na intf =
    elim (Bool-cases (kc_self == kclass)) [
      | inl e ↦ inl (rw e, same (sym ((==_iff kc_self kclass).0 e)))
      | inr ne ↦
          rw (ne, na, intf) (is_subclass-Decides memory rank g kclass fuel kc_self (omega arith))
    ]
