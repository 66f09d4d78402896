-- ===== src/Prepare/Vtable/Dispatch.antt =====
-- The vtable that `prepare_methods` (korp_src/class/class_prepare.cpp) builds, as dispatch sees it.
use mini_jvm.Common.{
  ℕ, ◌+◌, ◌-◌, ◌*◌, ◌^◌, ◌≤◌, ◌<◌, ◌≡◌, refl, sym, ap, ◌∙◌, subst, inl, inr, List, ◌++◌, Bool,
  false, if◌then◌else◌, length, ltb, ltb→lt, get_elem?, get_elem?-lt, replicate, some, ok, Memᴰ,
  arith, Bool-cases, ok-bind,
}
use mini_jvm.Prepare.Vtable.{
  Store, Class, method_is_static, vm_array_overhead, Vtable, Placing, place_methods, first_placing,
  super_tables, write_methods, prepare_instance_vtable, prepare_methods,
}
use mini_jvm.Prepare.Vtable.Slots.{Steps, place_methods-Steps}
use mini_jvm.Prepare.Vtable.Kept.{Kept, Steps-Kept, Steps-offset}
use mini_jvm.Prepare.Vtable.Placement.{Signed, At, IsVtable, Ready, Steps-num, Where, Steps-Where}
use mini_jvm.Prepare.Vtable.Sharing.{Steps-fill, Steps-share}
use mini_jvm.Prepare.Vtable.Writing.{Written, Placed, write_methods-Written}
use mini_jvm.Prepare.Vtable.Promise.{get_elem?-front, copied-ok, Wellformed, Dispatches, Overrides}
use mini_jvm.Prepare.Vtable.Target.{Target, place_methods-Target, Overrides-At, At-Overrides}

if_false {ℓ} : {A : Type ℓ} {b : Bool} → b ≡ false → (x y : A) → (if b then x else y) ≡ y
if_false h x y = rw h refl

module _ (class_size : ℕ) (store : Store) (kclass : Class)
    (wf : Wellformed class_size store kclass) where
  first : ℕ
  first = vm_array_overhead + class_size

  info : List ℕ
  info = (super_tables kclass).vtable_info

  start : Placing
  start = first_placing class_size store kclass

  end : Placing
  end = place_methods kclass kclass.method_info start

  start-eq :
      (start.store ≡ store) × (start.offset ≡ first + 4 * length info) × (start.num ≡ length info)
  unfolding start first info first_placing
  start-eq =
      rw wf.no_interface
        (refl, omega (arith, wf.same_length, wf.fits), omega (arith, wf.same_length, wf.fits))

  steps : Steps info kclass.method_info start end
  unfolding info end
  steps = place_methods-Steps kclass kclass.method_info start

  ready : Ready first info kclass.method_info start
  unfolding first info
  ready =
      let (s, o, n) = start-eq in
      record {
        counts = o ∙ ap (λ k. first + 4 * k) (sym n);
        fits = rw n wf.fits;
        behind = omega (arith, n);
        is_vtable = rw s wf.is_vtable;
        own = wf.own;
        distinct = wf.distinct;
      }

  kept : Kept store end.store
  kept = subst (λ s. Kept s end.store) start-eq.0 (Steps-Kept steps)

  instance_at_start :
      (b : ℕ) → method_is_static (store b) ≡ false → method_is_static (start.store b) ≡ false
  instance_at_start b n = rw start-eq.0 n

  instance_at_end :
      (b : ℕ) → method_is_static (store b) ≡ false → method_is_static (end.store b) ≡ false
  instance_at_end b n = rw (kept b).modifier n

  instance_before :
      (b : ℕ) → method_is_static (end.store b) ≡ false → method_is_static (store b) ≡ false
  instance_before b n = rw (kept b).modifier at n

  offset_kept : (c : ℕ) → (Memᴰ c kclass.method_info → ⊥) → (end.store c).offset ≡ (store c).offset
  offset_kept c n = Steps-offset steps c n ∙ ap (λ s. (s c).offset) start-eq.0

  bounds : (length info ≤ end.num) × (first + 4 * end.num < 2 ^ 16)
  bounds =
      let (l, u) = Steps-num first info steps ready in
      (omega (arith, start-eq.2), omega (arith, ready.fits))

  own_slot :
      (b : ℕ)
      → Memᴰ b kclass.method_info
      → method_is_static (store b) ≡ false
      → Where first info end.store (length info) end.num b
  own_slot b m n =
      subst (λ k. Where first info end.store k end.num b) start-eq.2
        (Steps-Where first info steps ready b m (instance_at_start b n))

  base : Vtable
  base = record {
    info = info ++ replicate (end.num - length info) 0;
    code =
        (super_tables kclass).vtable ++ replicate (end.num - length (super_tables kclass).vtable) 0;
  }

  base-lengths : (length base.info ≡ end.num) × (length base.code ≡ end.num)
  unfolding base info
  base-lengths = (
    (copied-ok info end.num bounds.0).1,
    (copied-ok (super_tables kclass).vtable end.num (omega (arith, bounds.0, wf.same_length))).1,
  )

  placed : Placed class_size end.store kclass.method_info base
  unfolding first
  placed b m n =
      let (j, at, lt, _) = own_slot b m (instance_before b n) in
      (j, at, omega (arith, base-lengths.0), omega (arith, base-lengths.1), omega (arith, bounds.1))

  written :
      (v : Vtable) × (write_methods class_size end.store kclass.method_info base ≡ ok v)
      × (length v.info ≡ length base.info)
      × (length v.code ≡ length base.code)
      × ((i : ℕ) → Written class_size end.store kclass.method_info base v i)
  written = write_methods-Written class_size end.store kclass.method_info base placed

  tables : prepare_instance_vtable class_size end.store kclass end.num ≡ ok written.0
  unfolding prepare_instance_vtable base info
  tables =
      let a = (copied-ok info end.num bounds.0).0 in
      let b =
        (copied-ok (super_tables kclass).vtable end.num
          (omega (arith, bounds.0, wf.same_length))).0 in
      ok-bind a _ (ok-bind b _ written.1)

  prepared :
      prepare_methods class_size store kclass
      ≡ ok (record { store = end.store; tables = some written.0 })
  unfolding prepare_methods end start
  prepared =
      if_false wf.no_interface _ _
      ∙ ok-bind tables (λ v. ok (record { store = end.store; tables = some v })) refl

  -- A slot of the superclass before its tables are copied and after.
  base-front : (j : ℕ) → j < length info → get_elem? base.info j ≡ get_elem? info j
  unfolding base
  base-front j lt = get_elem?-front info (replicate (end.num - length info) 0) j lt

  empty_slot-taken :
      (j : ℕ)
      → length info ≤ j
      → j < length written.0.info
      → ((b : ℕ)
          → Memᴰ b kclass.method_info
          → method_is_static (end.store b) ≡ false
          → At first end.store b j
          → ⊥)
      → ⊥
  empty_slot-taken j le lt none_there =
      let (b, m, n, at) =
        Steps-fill first info steps ready j (omega (arith, start-eq.2))
          (omega (arith, written.2, base-lengths.0)) in
      let n' : method_is_static (end.store b) ≡ false = instance_at_end b (rw start-eq.0 at n) in
      none_there b m n' at

  slot-At : IsVtable first end.store written.0.info
  unfolding first info
  slot-At j a g = elim (written.4 j) [
    | inl (b, m, n, at, g', c) ↦
        let one : some b ≡ some a = sym g' ∙ g in
        let q : b ≡ a = cc in subst (λ x. At first end.store x j) q at
    | inr (p, c, none_there) ↦ elim (Bool-cases (ltb j (length info))) [
      | inl lt ↦
          let old : get_elem? info j ≡ some a =
            sym (base-front j (ltb→lt j (length info) lt)) ∙ sym p ∙ g in
          offset_kept a (wf.own j a old) ∙ wf.is_vtable j a old
      | inr ge ↦
          absurd (empty_slot-taken j (ground arith) (get_elem?-lt written.0.info j g) none_there)
    ]
  ]

  slot-inherits :
      (j a : ℕ)
      → get_elem? info j ≡ some a
      → (a' : ℕ) × (get_elem? written.0.info j ≡ some a') × Signed (store a) (end.store a')
  unfolding first
  slot-inherits j a g = elim (written.4 j) [
    | inl (b, m, n, at, g', c) ↦
        let (k, at', lt, found) = own_slot b m (instance_before b n) in
        let k_eq : k ≡ j = omega (arith, at, at') in
        elim found [
          | inl le ↦ absurd (omega (arith, get_elem?-lt info j g, le, k_eq))
          | inr (c', gc, (nm, d)) ↦
              let one : some c' ≡ some a = sym gc ∙ ap (get_elem? info) k_eq ∙ g in
              let q : c' ≡ a = cc in
              (
                b,
                g',
                (
                  sym (kept a).name ∙ ap (λ x. (end.store x).name) (sym q) ∙ sym nm,
                  sym (kept a).descriptor ∙ ap (λ x. (end.store x).descriptor) (sym q) ∙ sym d,
                ),
              )
        ]
    | inr (p, c, none_there) ↦ (
      a,
      p ∙ base-front j (get_elem?-lt info j g) ∙ g,
      (sym (kept a).name, sym (kept a).descriptor),
    )
  ]

  target :
      (b : ℕ)
      → Memᴰ b kclass.method_info
      → method_is_static (store b) ≡ false
      → Target first kclass store end.store b
  unfolding info end
  target b m n =
      subst (λ s. Target first kclass s end.store b) start-eq.0
        (place_methods-Target first kclass kclass.method_info start ready b m
          (instance_at_start b n))

  -- An instance method stands in the slot whose offset it has.
  At-holds :
      (b j : ℕ)
      → Memᴰ b kclass.method_info
      → method_is_static (store b) ≡ false
      → At first end.store b j
      → (get_elem? written.0.info j ≡ some b)
        × (get_elem? written.0.code j ≡ some (end.store b).jitted_code)
  unfolding first
  At-holds b j m n at = elim (written.4 j) [
    | inl (c, mc, nc, atc, g, code) ↦
        let n_start = instance_at_start b n in
        let nc_start = instance_at_start c (instance_before c nc) in
        let q : c ≡ b =
          elim (Steps-share first info steps ready c b j mc m nc_start n_start atc at) [
            | inl e ↦ e
            | inr (nm, d) ↦ wf.signatures c b mc m (instance_before c nc) n (
              (sym (kept c).name ∙ nm ∙ (kept b).name),
              (sym (kept c).descriptor ∙ d ∙ (kept b).descriptor),
            )
          ] in
        (g ∙ ap some q, code ∙ ap (λ x. some (end.store x).jitted_code) q)
    | inr (p, c, none_there) ↦ absurd (none_there b m (instance_at_end b n) at)
  ]

  slot-holds :
      (b : ℕ)
      → Memᴰ b kclass.method_info
      → method_is_static (store b) ≡ false
      → (j : ℕ) × (get_elem? written.0.info j ≡ some b)
        × (get_elem? written.0.code j ≡ some (end.store b).jitted_code)
  slot-holds b m n =
      let (j, at, lt, _) = own_slot b m n in let (g, c) = At-holds b j m n at in (j, g, c)

  slot-Overrides :
      (b j : ℕ)
      → Memᴰ b kclass.method_info
      → method_is_static (store b) ≡ false
      → Overrides store kclass b j
      → (get_elem? written.0.info j ≡ some b)
        × (get_elem? written.0.code j ≡ some (end.store b).jitted_code)
  unfolding first
  slot-Overrides b j m n o =
      At-holds b j m n (
        Overrides-At first kclass store end.store wf.is_vtable wf.no_interface b j (target b m n) o)

  base-code :
      (j : ℕ) → j < length info → get_elem? base.code j ≡ get_elem? (super_tables kclass).vtable j
  unfolding base info
  base-code j lt = get_elem?-front (super_tables kclass).vtable _ j (omega (arith, wf.same_length))

  slot-retains :
      (j : ℕ)
      → j < length info
      → ((b : ℕ)
          → Memᴰ b kclass.method_info
          → method_is_static (store b) ≡ false
          → ¬ Overrides store kclass b j)
      → (get_elem? written.0.info j ≡ get_elem? info j)
        × (get_elem? written.0.code j ≡ get_elem? (super_tables kclass).vtable j)
  unfolding first info
  slot-retains j lt free = elim (written.4 j) [
    | inl (b, m, n, at, g, code) ↦
        let n' = instance_before b n in
        absurd (
          free b m n' (
            At-Overrides first kclass store end.store wf.is_vtable wf.no_interface b j
              (target b m n') at lt))
    | inr (p, c, none_there) ↦ (p ∙ base-front j lt, c ∙ base-code j lt)
  ]

  dispatches : Dispatches class_size store kclass end.store written.0
  unfolding first info
  dispatches = record {
    is_vtable = slot-At;
    same_length = written.3 ∙ base-lengths.1 ∙ sym (written.2 ∙ base-lengths.0);
    inherits = slot-inherits;
    holds = slot-holds;
    overrides = slot-Overrides;
    retains = slot-retains;
  }

-- For a wellformed class that is no interface `prepare_methods` does not fault, and its tables are a
-- vtable again: the method in each slot has the offset of the slot. A slot of the superclass
-- holds a method with the name and the descriptor that it had. Each instance method of the class
-- stands, with the entry of its code, in a slot. A method that overrides one of the superclass, the
-- first with its signature if that one is no default method of another package, stands in that slot;
-- and the slots that no method overrides hold the method and the code that they held.
pub prepare_methods-Dispatches :
    (class_size : ℕ) (store : Store) (kclass : Class)
    → Wellformed class_size store kclass
    → (store' : Store) × (v : Vtable) × (prepare_methods class_size store kclass
        ≡ ok (record { store = store'; tables = some v }))
      × Dispatches class_size store kclass store' v
prepare_methods-Dispatches class_size store kclass wf = (
  (end class_size store kclass wf).store,
  (written class_size store kclass wf).0,
  prepared class_size store kclass wf,
  dispatches class_size store kclass wf,
)
