-- ===== src/Prepare/Vtable/Placement.antt =====
-- Where the loop of `prepare_methods` (korp_src/class/class_prepare.cpp) puts the methods of a class:
-- in the slot of a method with the same signature or in a new one.
use mini_jvm.Common.{
  ℕ, suc, ◌+◌, ◌*◌, ◌%◌, ◌^◌, ◌≤◌, ◌<◌, ◌≡◌, sym, ap, ◌∙◌, subst, ◌⊎◌, inl, inr, List, [], ◌∷◌,
  true, false, length, get_elem?, get_elem?-lt, some, Memᴰ, arith,
}
use mini_jvm.Prepare.Vtable.{
  Method, Store, method_is_static, method_equal_signature, Placing, fresh,
}
use mini_jvm.Prepare.Vtable.Slots.{Step, skipped, overriding, placed, Steps, done, turn}
use mini_jvm.Prepare.Vtable.Kept.{
  Kept, Step-Kept, Steps-Kept, update_self, override-offset_self, Step-offset, Steps-offset,
}

-- Two methods of one name and one descriptor.
abbrev pub Signed : Method → Method → Type 0
Signed m m' = (m.name ≡ m'.name) × (m.descriptor ≡ m'.descriptor)

pub equal_signature-Signed : (m m' : Method) → method_equal_signature m m' ≡ true → Signed m m'
equal_signature-Signed m m' h = ground arith

-- Signatures do not change.
pub Signed-Kept :
    {store store' : Store} {b a : ℕ}
    → Kept store store'
    → Signed (store b) (store a)
    → Signed (store' b) (store' a)
Signed-Kept {b} {a} k (n, d) =
    ((k b).name ∙ n ∙ sym ((k a).name), (k b).descriptor ∙ d ∙ sym ((k a).descriptor))

abbrev pub Distinct : List ℕ → Type 0
Distinct [] = Unit
Distinct (b ∷ bs) = (Memᴰ b bs → ⊥) × Distinct bs

-- The offset of the slot `j`, from that of the first one.
abbrev pub At : ℕ → Store → ℕ → ℕ → Type 0
At first store b j = (store b).offset ≡ first + 4 * j

-- A vtable: the method in each slot has the offset of the slot.
abbrev pub IsVtable : ℕ → Store → List ℕ → Type 0
IsVtable first store info = (j a : ℕ) → get_elem? info j ≡ some a → At first store a j

-- What the loop relies on: the methods of the class are its own, and the offsets fit in 16 bits.
pub record Ready (first : ℕ) (info bs : List ℕ) (p : Placing) : Type 0 where
  pub counts : p.offset ≡ first + 4 * p.num
  pub fits : first + 4 * (p.num + length bs) < 2 ^ 16
  pub behind : length info ≤ p.num
  pub is_vtable : IsVtable first p.store info
  pub own : (j a : ℕ) → get_elem? info j ≡ some a → Memᴰ a bs → ⊥
  pub distinct : Distinct bs

abbrev pub fresh_num : ℕ → ℕ
fresh_num num = (num + 1) % 2 ^ 16

module _ (first : ℕ) (info : List ℕ) where
  Step-num :
      {b : ℕ} {p q : Placing} (k : ℕ)
      → Step info b p q
      → p.offset ≡ first + 4 * p.num
      → first + 4 * (p.num + suc k) < 2 ^ 16
      → (q.offset ≡ first + 4 * q.num) × (p.num ≤ q.num) × (q.num ≤ p.num + 1)
  Step-num k (skipped e) c f = (c, omega arith, omega arith)
  Step-num k (overriding a j e g s) c f = (c, omega arith, omega arith)
  Step-num k (placed e) c f = (omega arith, omega arith, omega arith)

  pub Ready-Step :
      {b : ℕ} {bs : List ℕ} {p q : Placing}
      → Step info b p q
      → Ready first info (b ∷ bs) p
      → Ready first info bs q
  Ready-Step {b} {bs} {p} {q} s r =
      let (c, l, u) = Step-num (length bs) s r.counts r.fits in
      record {
        counts = c;
        fits = omega (arith, r.fits);
        behind = omega (arith, r.behind);
        is_vtable = λ j a g. Step-offset s a (λ e. r.own j a g (Memᴰ.head e)) ∙ r.is_vtable j a g;
        own = λ j a g m. r.own j a g (Memᴰ.tail m);
        distinct = r.distinct.1;
      }

  pub Steps-num :
      {bs : List ℕ} {p r : Placing}
      → Steps info bs p r
      → Ready first info bs p
      → (p.num ≤ r.num) × (r.num ≤ p.num + length bs)
  Steps-num done h = (omega arith, omega arith)
  Steps-num {bs = b ∷ bs} (turn s rest) h =
      let (c, l, u) = Step-num (length bs) s h.counts h.fits in
      let (l', u') = Steps-num rest (Ready-Step s h) in (omega arith, omega arith)

  -- The slot of a method: a new one, or the one of a method with the same signature.
  abbrev pub Where : Store → ℕ → ℕ → ℕ → Type 0
  Where store low high b =
      (j : ℕ) × At first store b j
      × (j < high)
      × ((low ≤ j) ⊎ ((a : ℕ) × (get_elem? info j ≡ some a) × Signed (store b) (store a)))

  pub placed-At :
      {b : ℕ} {bs : List ℕ} {p r : Placing}
      → Steps info bs (fresh b p) r
      → Ready first info (b ∷ bs) p
      → At first r.store b p.num
  placed-At {b} {p} rest h =
      Steps-offset rest b h.distinct.0
      ∙ ap (λ m. m.offset) (update_self p.store b (record (p.store b) { offset = p.offset }))
      ∙ h.counts

  head-Where :
      {b : ℕ} {bs : List ℕ} {p q r : Placing}
      → Step info b p q
      → Steps info bs q r
      → Ready first info (b ∷ bs) p
      → method_is_static (p.store b) ≡ false
      → Where r.store p.num r.num b
  head-Where (skipped e) rest h n = let impossible : true ≡ false = sym e ∙ n in cc
  head-Where {b} {bs} {p} {q} {r} (overriding a j e g s) rest h n =
      let at : At first r.store b j =
        Steps-offset rest b h.distinct.0 ∙ override-offset_self p.store b a ∙ h.is_vtable j a g in
      let (l, u) = Steps-num rest (Ready-Step (overriding a j e g s) h) in
      let same : Signed (p.store b) (p.store a) =
        equal_signature-Signed (p.store b) (p.store a) s in
      let k : Kept p.store r.store = Steps-Kept (turn (overriding a j e g s) rest) in
      (j, at, omega (arith, get_elem?-lt info j g, h.behind), inr (a, g, Signed-Kept k same))
  head-Where {b} {bs} {p} {q} {r} (placed e) rest h n =
      let (l, u) = Steps-num rest (Ready-Step (placed e) h) in
      (p.num, placed-At rest h, omega (arith, h.fits), inl (omega arith))

  pub still_instance :
      {b : ℕ} {p q : Placing}
      → Step info b p q
      → (c : ℕ) → method_is_static (p.store c) ≡ false
      → method_is_static (q.store c) ≡ false
  still_instance s c n = rw (Step-Kept s c).modifier n

  pub was_instance :
      {b : ℕ} {p q : Placing}
      → Step info b p q
      → (c : ℕ) → method_is_static (q.store c) ≡ false
      → method_is_static (p.store c) ≡ false
  was_instance s c n = rw (Step-Kept s c).modifier at n

  pub Steps-Where :
      {bs : List ℕ} {p r : Placing}
      → Steps info bs p r
      → Ready first info bs p
      → (b : ℕ) → Memᴰ b bs
      → method_is_static (p.store b) ≡ false
      → Where r.store p.num r.num b
  Steps-Where done h b m n = elim m [ ]
  Steps-Where {p} {r} (turn {b = c} s rest) h b (Memᴰ.head e) n =
      subst (λ x. Where r.store p.num r.num x) (sym e) (head-Where s rest h (rw e at n))
  Steps-Where {bs = c ∷ bs} {p} {r} (turn {q} s rest) h b (Memᴰ.tail m) n =
      let (j, at, lt, where_from) = Steps-Where rest (Ready-Step s h) b m (still_instance s b n) in
      let (_, l, u) = Step-num (length bs) s h.counts h.fits in
      (j, at, lt, elim where_from [ inl le ↦ inl (omega arith) | inr found ↦ inr found ])
