-- ===== src/Prepare/Vtable/Writing.antt =====
-- The loop of `prepare_instance_vtable` (korp_src/class/class_prepare.cpp) that writes the methods of
-- the class into their slots.
use mini_jvm.Common.{
  ℕ, ◌+◌, ◌*◌, ◌^◌, ◌<◌, ◌≡◌, ◌≢◌, refl, sym, ap, ◌∙◌, ◌⊎◌, inl, inr, List, [], ◌∷◌, true, false,
  ◌==◌, ==_iff, length, lt→ltb, get_elem?, set, length-set, get_elem?-set_self, get_elem?-set_ne,
  some, ok, Memᴰ, cases_cons, arith, Bool-cases,
}
use mini_jvm.Prepare.Vtable.{
  Store, method_is_static, vm_array_overhead, method_get_slot_index, Vtable, write_methods,
}
use mini_jvm.Prepare.Vtable.Placement.{At}

module _ (class_size : ℕ) (store : Store) where
  abbrev first : ℕ
  first = vm_array_overhead + class_size

  slot_index-At :
      (b j : ℕ)
      → At first store b j
      → first + 4 * j < 2 ^ 16
      → method_get_slot_index class_size (store b) ≡ j
  unfolding method_get_slot_index
  slot_index-At b j at lt = rw at (omega arith)

  -- What stands in a slot behind the loop: a method with the offset of the slot, or what was there.
  abbrev pub Written : List ℕ → Vtable → Vtable → ℕ → Type 0
  Written bs v v' i =
      ((b : ℕ) × Memᴰ b bs
        × (method_is_static (store b) ≡ false)
        × At first store b i
        × (get_elem? v'.info i ≡ some b)
        × (get_elem? v'.code i ≡ some (store b).jitted_code))
      ⊎ ((get_elem? v'.info i ≡ get_elem? v.info i)
          × (get_elem? v'.code i ≡ get_elem? v.code i)
          × ((b : ℕ) → Memᴰ b bs → method_is_static (store b) ≡ false → At first store b i → ⊥))

  -- The methods have slots, and both arrays have these.
  abbrev pub Placed : List ℕ → Vtable → Type 0
  Placed bs v =
      (b : ℕ)
      → Memᴰ b bs
      → method_is_static (store b) ≡ false
      → (j : ℕ) × At first store b j
        × (j < length v.info)
        × (j < length v.code)
        × (first + 4 * j < 2 ^ 16)

  abbrev wrote : ℕ → ℕ → Vtable → Vtable
  wrote j b v = record { info = set v.info j b; code = set v.code j (store b).jitted_code }

  Placed-wrote :
      {b : ℕ} {bs : List ℕ} (v : Vtable) (j : ℕ) → Placed (b ∷ bs) v → Placed bs (wrote j b v)
  Placed-wrote {b} v j h c m n =
      let (k, at, l, l', f) = h c (Memᴰ.tail m) n in
      (
        k,
        at,
        omega (arith, length-set v.info j b),
        omega (arith, length-set v.code j (store b).jitted_code),
        f,
      )

  Written-static :
      {b : ℕ} {bs : List ℕ} (v v' : Vtable) (i : ℕ)
      → method_is_static (store b) ≡ true
      → Written bs v v' i
      → Written (b ∷ bs) v v' i
  Written-static v v' i e (inl (c, m, n, at_c, g, k)) = inl (c, Memᴰ.tail m, n, at_c, g, k)
  Written-static {b} {bs} v v' i e (inr (p, q, none_there)) = inr (
    p,
    q,
    λ c m n at. elim (cases_cons m) [
      | inl c_eq ↦ let impossible : true ≡ false = sym e ∙ (rw c_eq at n) in absurd (cc)
      | inr m' ↦ none_there c m' n at
    ],
  )

  Written-wrote :
      {b : ℕ} {bs : List ℕ} (v v' : Vtable) (i j : ℕ)
      → method_is_static (store b) ≡ false
      → At first store b j
      → j < length v.info
      → j < length v.code
      → Written bs (wrote j b v) v' i
      → Written (b ∷ bs) v v' i
  Written-wrote v v' i j e at l l' (inl (c, m, n, at_c, g, k)) = inl (c, Memᴰ.tail m, n, at_c, g, k)
  Written-wrote {b} {bs} v v' i j e at l l' (inr (p, q, none_there)) = elim (Bool-cases (j == i)) [
    | inl h ↦
        let j_eq : j ≡ i = (==_iff j i).0 h in
        inl (
          b,
          Memᴰ.head refl,
          e,
          at ∙ ap (λ x. first + 4 * x) j_eq,
          p ∙ ap (get_elem? (set v.info j b)) (sym j_eq) ∙ get_elem?-set_self v.info j b l,
          q
              ∙ ap (get_elem? (set v.code j (store b).jitted_code)) (sym j_eq)
              ∙ get_elem?-set_self v.code j (store b).jitted_code l',
        )
    | inr h ↦
        let j_ne : j ≢ i =
          λ x. (let impossible : true ≡ false = sym ((==_iff j i).1 x) ∙ h in cc) in
        inr (
          p ∙ get_elem?-set_ne v.info b j_ne,
          q ∙ get_elem?-set_ne v.code (store b).jitted_code j_ne,
          λ c m n at'. elim (cases_cons m) [
            | inl c_eq ↦ j_ne (omega (arith, at, at', ap (λ x. (store x).offset) c_eq))
            | inr m' ↦ none_there c m' n at'
          ],
        )
  ]

  pub write_methods-Written :
      (bs : List ℕ) (v : Vtable)
      → Placed bs v
      → (v' : Vtable) × (write_methods class_size store bs v ≡ ok v')
        × (length v'.info ≡ length v.info)
        × (length v'.code ≡ length v.code)
        × ((i : ℕ) → Written bs v v' i)
  unfolding write_methods
  write_methods-Written [] v h =
      (v, refl, refl, refl, λ i. inr (refl, refl, λ b m n at. elim m [ ]))
  write_methods-Written (b ∷ bs) v h = elim (Bool-cases (method_is_static (store b))) [
    | inl e ↦
        let (v', p, l, l', w) = write_methods-Written bs v (λ c m n. h c (Memᴰ.tail m) n) in
        (v', rw e p, l, l', λ i. Written-static v v' i e (w i))
    | inr e ↦
        let (j, at, lt, lt', f) = h b (Memᴰ.head refl) e in
        let (v', p, l, l', w) = write_methods-Written bs (wrote j b v) (Placed-wrote v j h) in
        let index : method_get_slot_index class_size (store b) ≡ j = slot_index-At b j at f in
        (
          v',
          rw (e, index, lt→ltb j (length v.info) lt, lt→ltb j (length v.code) lt') p,
          l ∙ length-set v.info j b,
          l' ∙ length-set v.code j (store b).jitted_code,
          λ i. Written-wrote v v' i j e at lt lt' (w i),
        )
  ]
