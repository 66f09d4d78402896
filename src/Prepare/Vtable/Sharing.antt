-- ===== src/Prepare/Vtable/Sharing.antt =====
-- Which slots the loop of `prepare_methods` (korp_src/class/class_prepare.cpp) fills, and which methods
-- share one.
use mini_jvm.Common.{
  ℕ, ◌+◌, ◌*◌, ◌≤◌, ◌<◌, ◌≡◌, refl, sym, ap, ◌∙◌, ◌⊎◌, inl, inr, List, ◌∷◌, true, false, ◌==◌,
  ==_iff, get_elem?, get_elem?-lt, some, Memᴰ, arith, Bool-cases,
}
use mini_jvm.Prepare.Vtable.{method_is_static, Placing}
use mini_jvm.Prepare.Vtable.Slots.{Step, skipped, overriding, placed, Steps, done, turn}
use mini_jvm.Prepare.Vtable.Kept.{Steps-Kept, override-offset_self, Steps-offset}
use mini_jvm.Prepare.Vtable.Placement.{
  Signed, equal_signature-Signed, Signed-Kept, At, Ready, fresh_num, Ready-Step, placed-At,
  still_instance, was_instance, Steps-Where,
}

module _ (first : ℕ) (info : List ℕ) where
  -- Each new slot is taken by a method of the class.
  pub Steps-fill :
      {bs : List ℕ} {p r : Placing}
      → Steps info bs p r
      → Ready first info bs p
      → (j : ℕ) → p.num ≤ j
      → j < r.num
      → (b : ℕ) × Memᴰ b bs × (method_is_static (p.store b) ≡ false) × At first r.store b j
  Steps-fill done h j le lt = absurd (omega arith)
  Steps-fill (turn (skipped e) rest) h j le lt =
      let (b, m, n, at) = Steps-fill rest (Ready-Step first info (skipped e) h) j le lt in
      (b, Memᴰ.tail m, n, at)
  Steps-fill {p} (turn (overriding a i e g s) rest) h j le lt =
      let (b, m, n, at) =
        Steps-fill rest (Ready-Step first info (overriding a i e g s) h) j le lt in
      (b, Memᴰ.tail m, was_instance first info {p = p} (overriding a i e g s) b n, at)
  Steps-fill {bs = c ∷ bs} {p} {r} (turn (placed e) rest) h j le lt =
      elim (Bool-cases (j == p.num)) [
        | inl q ↦ (
          c,
          Memᴰ.head refl,
          e,
          placed-At first info rest h ∙ ap (λ x. first + 4 * x) (sym ((==_iff j p.num).0 q)),
        )
        | inr q ↦
            let next : fresh_num p.num ≤ j = ground (arith, h.fits) in
            let (b, m, n, at) = Steps-fill rest (Ready-Step first info (placed e) h) j next lt in
            (b, Memᴰ.tail m, was_instance first info {p = p} (placed e) b n, at)
      ]

  -- The first method and a later one.
  head-share :
      {b : ℕ} {bs : List ℕ} {p q r : Placing}
      → Step info b p q
      → Steps info bs q r
      → Ready first info (b ∷ bs) p
      → (c j : ℕ) → Memᴰ c bs
      → method_is_static (p.store b) ≡ false
      → method_is_static (p.store c) ≡ false
      → At first r.store b j
      → At first r.store c j
      → Signed (r.store b) (r.store c)
  head-share (skipped e) rest h c j m nb nc ab ac =
      let impossible : true ≡ false = sym e ∙ nb in absurd (cc)
  head-share {b} {p} {r} (overriding a i e g s) rest h c j m nb nc ab ac =
      let s' = overriding a i e g s in
      let at : At first r.store b i =
        Steps-offset rest b h.distinct.0 ∙ override-offset_self p.store b a ∙ h.is_vtable i a g in
      let (k, at', lt, found) =
        Steps-Where first info rest (Ready-Step first info s' h) c m
          (still_instance first info {p = p} s' c nc) in
      let i_eq : i ≡ j = omega (arith, at, ab) in
      let k_eq : k ≡ i = omega (arith, at', ac, at, ab) in
      let same : Signed (p.store b) (p.store a) =
        equal_signature-Signed (p.store b) (p.store a) s in
      let (n, d) =
        Signed-Kept {store = p.store} {store' = r.store} (Steps-Kept (turn {p = p} s' rest)) same in
      elim found [
        | inl le ↦ absurd (omega (arith, get_elem?-lt info i g, h.behind, le, k_eq))
        | inr (a', g', (n', d')) ↦
            let one : some a' ≡ some a = sym g' ∙ ap (get_elem? info) k_eq ∙ g in
            let q : a' ≡ a = cc in
            (
              n ∙ sym (n' ∙ ap (λ x. (r.store x).name) q),
              d ∙ sym (d' ∙ ap (λ x. (r.store x).descriptor) q),
            )
      ]
  head-share {b} {bs} {p} {r} (placed e) rest h c j m nb nc ab ac =
      let at : At first r.store b p.num = placed-At first info rest h in
      let (k, at', lt, found) =
        Steps-Where first info rest (Ready-Step first info (placed e) h) c m
          (still_instance first info {p = p} (placed e) c nc) in
      let k_eq : k ≡ p.num = omega (arith, at', ac, at, ab) in
      elim found [
        | inl le ↦ absurd (omega (arith, h.fits, le, k_eq))
        | inr (a', g', same) ↦ absurd (omega (arith, get_elem?-lt info k g', h.behind, k_eq))
      ]

  -- Two methods of the class share a slot only if they have one signature.
  pub Steps-share :
      {bs : List ℕ} {p r : Placing}
      → Steps info bs p r
      → Ready first info bs p
      → (b c j : ℕ) → Memᴰ b bs
      → Memᴰ c bs
      → method_is_static (p.store b) ≡ false
      → method_is_static (p.store c) ≡ false
      → At first r.store b j
      → At first r.store c j
      → (b ≡ c) ⊎ Signed (r.store b) (r.store c)
  Steps-share done h b c j mb mc nb nc ab ac = elim mb [ ]
  Steps-share (turn s rest) h b c j (Memᴰ.head e) (Memᴰ.head e') nb nc ab ac = inl (e ∙ sym e')
  Steps-share {p} {r} (turn s rest) h b c j (Memᴰ.head e) (Memᴰ.tail m) nb nc ab ac =
      let (n, d) = head-share s rest h c j m (rw e at nb) nc (rw e at ab) ac in
      inr (ap (λ x. (r.store x).name) e ∙ n, ap (λ x. (r.store x).descriptor) e ∙ d)
  Steps-share {p} {r} (turn s rest) h b c j (Memᴰ.tail m) (Memᴰ.head e) nb nc ab ac =
      let (n, d) = head-share s rest h b j m (rw e at nc) nb (rw e at ac) ab in
      inr (sym (ap (λ x. (r.store x).name) e ∙ n), sym (ap (λ x. (r.store x).descriptor) e ∙ d))
  Steps-share (turn s rest) h b c j (Memᴰ.tail m) (Memᴰ.tail m') nb nc ab ac =
      Steps-share rest (Ready-Step first info s h) b c j m m' (still_instance first info s b nb)
        (still_instance first info s c nc) ab ac
