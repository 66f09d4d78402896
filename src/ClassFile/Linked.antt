-- ===== src/ClassFile/Linked.antt =====
-- What `parse_constant_pool` and its readers (korp_src/class/class_parse.cpp) keep: a slot that is
-- read as a string is one.
pub mod Slots
use mini_jvm.Common.{
  ℕ, zero, suc, ◌+◌, ◌-◌, ◌*◌, ◌/◌, ◌%◌, ◌^◌, ◌≤◌, ◌<◌, ◌≡◌, ◌≢◌, ◌↔◌, ◌⊎◌, inl, inr, refl, sym, ap,
  ◌∙◌, subst, List, [], ◌∷◌, Bool, true, false, not, ◌&&◌, ◌||◌, ◌==◌, ==_iff, if◌then◌else◌,
  length, ltb, get_elem?, set, arith, Bool-cases, All, length-set, get_elem?-set_self,
  get_elem?-set_ne, Option, none, some, Run, ok, fault, out_of_bounds, out_of_fuel, reported, ◌>>=◌,
  ◌>>◌, require, deref, >>=-eq-ok, ok-injective, Run-cases, require-ok, deref-ok,
}
use mini_jvm.StringPool.{KString, StringPool, string_pool_lookup}
use mini_jvm.ClassFile.{
  Slot, tag_array, uint16_object, uint16_pair, int_object, long_object, string_object, ref_pair,
  Entry, readbytes, as_string, cp_class_read_name, cp_utf8_read_string,
}
use mini_jvm.ClassFile.Pool.{
  Parsed, read_chars, parse_index, parse_pair, parse_int, parse_long, parse_utf8, parse_entry,
  left_behind, entries_of, parse_slots, as_uint16, as_2uint16, entry_at, link_name, link_member,
  link_name_and_type, link_entry, link_slots, new_pool, parse_constant_pool,
}
use mini_jvm.ClassFile.Linked.Slots.{
  is_string, is_name, Named, Utf8Named, Raw, parse_slots-Raw, Linked,
}

module _ (cpool : List Entry)
    (utf8 : (j : ℕ) (r : Entry) → get_elem? cpool j ≡ some r → Utf8Named r) where
  entry_at-utf8 : (i : ℕ) (r : Entry) → entry_at cpool i ≡ ok r → Utf8Named r
  unfolding entry_at
  entry_at-utf8 i r h = utf8 i r (deref-ok out_of_bounds _ h)

  link_name-string :
      (tag : ℕ) (s : Slot) (e : Entry)
      → link_name cpool tag s ≡ ok e
      → (is_string e.slot ≡ true) × (e.tag ≡ tag)
  unfolding link_name
  link_name-string tag s e h =
      let (n, _, h₁) = >>=-eq-ok (as_uint16 s) _ h in
      let (r, at, h₂) = >>=-eq-ok (entry_at cpool n) _ h₁ in
      let (_, c, h₃) = >>=-eq-ok (require (r.tag % 16 == 1)) _ h₂ in
      subst (λ (x : Entry). (is_string x.slot ≡ true) × (x.tag ≡ tag)) (ok-injective h₃)
        (entry_at-utf8 n r at (require-ok _ c), refl)

  link_member-tag : (tag : ℕ) (s : Slot) (e : Entry) → link_member cpool tag s ≡ ok e → e.tag ≡ tag
  unfolding link_member
  link_member-tag tag s e h =
      let (n, _, h₁) = >>=-eq-ok (as_2uint16 s) _ h in
      let (r, _, h₂) = >>=-eq-ok (entry_at cpool n.0) _ h₁ in
      let (_, _, h₃) = >>=-eq-ok (require (r.tag == 7)) _ h₂ in
      let (q, _, h₄) = >>=-eq-ok (entry_at cpool n.1) _ h₃ in
      let (_, _, h₅) = >>=-eq-ok (require (q.tag % 16 == 12)) _ h₄ in
      ap (λ (x : Entry). x.tag) (sym (ok-injective h₅))

  link_name_and_type-tag :
      (tag : ℕ) (s : Slot) (e : Entry) → link_name_and_type cpool tag s ≡ ok e → e.tag ≡ tag + 0x80
  unfolding link_name_and_type
  link_name_and_type-tag tag s e h =
      let (n, _, h₁) = >>=-eq-ok (as_2uint16 s) _ h in
      let (r, _, h₂) = >>=-eq-ok (entry_at cpool n.0) _ h₁ in
      let (_, _, h₃) = >>=-eq-ok (require (r.tag % 16 == 1)) _ h₂ in
      let (_, _, h₄) = >>=-eq-ok (require (r.tag % 16 == 1)) _ h₃ in
      let (q, _, h₅) = >>=-eq-ok (entry_at cpool n.1) _ h₄ in
      ap (λ (x : Entry). x.tag) (sym (ok-injective h₅))

  not_name : (e : Entry) (k : ℕ) → e.tag ≡ k → is_name k ≡ false → (k ≡ 8 → ⊥) → Linked e
  not_name e k q n m = (λ h. absurd (tagged (rw q at h)), λ h. m (sym q ∙ h))
    where
      tagged : is_name k ≡ true → ⊥
      tagged h = cc

  name-Linked :
      (e : Entry) (k : ℕ) → (is_string e.slot ≡ true) × (e.tag ≡ k) → (k ≡ 8 → ⊥) → Linked e
  name-Linked e k (s, q) m = (λ _. s, λ h. m (sym q ∙ h))

  link_entry-Linked : (e e' : Entry) → Raw e → link_entry cpool e ≡ ok e' → Linked e'
  unfolding link_entry
  link_entry-Linked e e' (small, u) h = elim (Bool-cases (e.tag == 8)) [
    | inl t ↦ name-Linked e' 0x88 (link_name-string 0x88 e.slot e' (rw t at h)) (λ z. absurd (cc))
    | inr t ↦ elim (Bool-cases (e.tag == 7)) [
      | inl t' ↦
          name-Linked e' 7 (link_name-string 7 e.slot e' (rw (t, t') at h)) (λ z. absurd (cc))
      | inr t' ↦ elim (Bool-cases (e.tag == 9 || (e.tag == 10 || e.tag == 11))) [
        | inl m ↦
            let k = link_member-tag e.tag e.slot e' (rw (t, t', m) at h) in
            not_name e' e.tag k (ground arith) (λ z. absurd (ground arith))
        | inr m ↦ elim (Bool-cases (e.tag == 12)) [
          | inl d ↦
              let k = link_name_and_type-tag 12 e.slot e' (rw (t, t', m, d) at h) in
              not_name e' 0x8c k refl (λ z. absurd (cc))
          | inr d ↦
              let k : e ≡ e' = ok-injective (rw (t, t', m, d) at h) in
              subst Linked k (λ g. u (ground arith), λ g. absurd (ground arith))
        ]
      ]
    ]
  ]

-- Before turn `i` of the second loop the slots below `i` are linked.
abbrev LinkedTo : ℕ → List Entry → Type 0
LinkedTo i cpool =
    (j : ℕ) (e : Entry) → get_elem? cpool j ≡ some e → (j < i → Linked e) × (i ≤ j → Raw e)

LinkedTo-utf8 :
    (i : ℕ) (cpool : List Entry)
    → LinkedTo i cpool
    → (j : ℕ) (r : Entry) → get_elem? cpool j ≡ some r
    → Utf8Named r
LinkedTo-utf8 i cpool h j r g t = elim (Bool-cases (ltb j i)) [
  | inl b ↦ ((h j r g).0 (ground arith)).0 (rw t refl)
  | inr b ↦ ((h j r g).1 (ground arith)).1 t
]

link_step :
    (i : ℕ) (cpool : List Entry) (e e' : Entry)
    → LinkedTo i cpool
    → i < length cpool
    → get_elem? cpool i ≡ some e
    → link_entry cpool e ≡ ok e'
    → LinkedTo (i + 1) (set cpool i e')
link_step i cpool e e' h lt at run j x g = elim (Bool-cases (j == i)) [
  | inl b ↦
      let q : j ≡ i = (==_iff j i).0 b in
      let g' : some e' ≡ some x =
        sym (get_elem?-set_self cpool i e' lt)
        ∙ subst (λ k. get_elem? (set cpool i e') k ≡ some x) q g in
      let k : e' ≡ x = cc in
      (
        λ _. subst Linked k (
            link_entry-Linked cpool (LinkedTo-utf8 i cpool h) e e' ((h i e at).1 (omega arith))
              run),
        λ l. absurd (omega (arith, q)),
      )
  | inr b ↦
      let ne : i ≢ j = λ q. absurd (ground arith) in
      let g' : get_elem? cpool j ≡ some x = sym (get_elem?-set_ne cpool e' ne) ∙ g in
      (λ l. (h j x g').0 (ground arith), λ l. (h j x g').1 (omega arith))
]

entry_at-some :
    (cpool : List Entry) (i : ℕ) (e : Entry) → entry_at cpool i ≡ ok e → get_elem? cpool i ≡ some e
unfolding entry_at
entry_at-some cpool i e h = deref-ok out_of_bounds _ h

the_sum : (i n : ℕ) → i + 1 + n ≡ i + suc n
the_sum i n = omega arith

link_slots-LinkedTo :
    (n i : ℕ) (cpool r : List Entry)
    → i + n ≡ length cpool
    → LinkedTo i cpool
    → link_slots n i cpool ≡ ok r
    → LinkedTo (i + n) r × (length r ≡ length cpool)
unfolding link_slots
link_slots-LinkedTo zero i cpool r l h run =
    let q : cpool ≡ r = ok-injective run in
    subst (λ x. LinkedTo (i + 0) x × (length x ≡ length cpool)) q (LinkedTo-0, refl)
  where
    LinkedTo-0 : LinkedTo (i + 0) cpool
    LinkedTo-0 j e g = (λ k. (h j e g).0 (omega arith), λ k. (h j e g).1 (omega arith))
link_slots-LinkedTo (suc n) i cpool r l h run =
    let (e, at, run₁) = >>=-eq-ok (entry_at cpool i) _ run in
    let (e', linked, run₂) = >>=-eq-ok (link_entry cpool e) _ run₁ in
    let at' : get_elem? cpool i ≡ some e = entry_at-some cpool i e at in
    let (done, k) =
      link_slots-LinkedTo n (i + 1) (set cpool i e') r (omega (arith, length-set cpool i e'))
        (link_step i cpool e e' h (omega arith) at' linked) run₂ in
    (subst (λ m. LinkedTo m r) (the_sum i n) done, k ∙ length-set cpool i e')

All-get :
    (P : Entry → Type 0) (xs : List Entry) (j : ℕ) (e : Entry)
    → All P xs
    → get_elem? xs j ≡ some e
    → P e
All-get P [] j e a h = cc
All-get P (x ∷ xs) zero e (p, a) h = let q : x ≡ e = cc in subst P q p
All-get P (x ∷ xs) (suc j) e (p, a) h = All-get P xs j e a h

Raw-LinkedTo :
    (slots : List Entry) → All Raw slots → LinkedTo 1 (record { tag = 0; slot = tag_array } ∷ slots)
Raw-LinkedTo slots a zero e h =
    let q : record { tag = 0; slot = tag_array } ≡ e = cc in
    (λ _. subst Linked q (λ g. absurd (cc), λ g. absurd (cc)), λ l. absurd (omega arith))
Raw-LinkedTo slots a (suc j) e h = (λ l. absurd (omega arith), λ _. All-get Raw slots j e a h)

get_elem?-lt : (xs : List Entry) (j : ℕ) (e : Entry) → get_elem? xs j ≡ some e → j < length xs
get_elem?-lt [] j e h = cc
get_elem?-lt (x ∷ xs) zero e h = omega arith
get_elem?-lt (x ∷ xs) (suc j) e h = omega (arith, get_elem?-lt xs j e h)

new_pool-positive : (n : ℕ) {u : Unit {0}} → new_pool n ≡ ok u → 0 < n
unfolding new_pool
new_pool-positive zero h = cc
new_pool-positive (suc n) h = omega arith

pub parse_constant_pool-Linked :
    (pool : StringPool) (buf : List ℕ) (cpool : List Entry) (pool' : StringPool) (buf' : List ℕ)
    → parse_constant_pool pool buf ≡ ok (cpool, pool', buf')
    → ((rest : List ℕ) × (readbytes 2 buf ≡ ok (length cpool, rest)))
      × ((j : ℕ) (e : Entry) → get_elem? cpool j ≡ some e → Linked e)
unfolding parse_constant_pool new_pool
parse_constant_pool-Linked pool buf cpool pool' buf' h =
    let (n, read, h₁) = >>=-eq-ok (readbytes 2 buf) _ h in
    let (_, fits, h₂) = >>=-eq-ok (new_pool n.0) _ h₁ in
    let (r, slots, h₃) = >>=-eq-ok (parse_slots (n.0 - 1) (n.0 - 1) pool n.1) _ h₂ in
    let (c, linked, h₄) = >>=-eq-ok (link_slots (n.0 - 1) 1 _) _ h₃ in
    let (a, l) = parse_slots-Raw (n.0 - 1) (n.0 - 1) pool n.1 r slots in
    let (done, len) =
      link_slots-LinkedTo (n.0 - 1) 1 (record { tag = 0; slot = tag_array } ∷ r.0) c
        (omega (arith, l)) (Raw-LinkedTo r.0 a) linked in
    let same : c ≡ cpool = ap (λ (x : List Entry × StringPool × List ℕ). x.0) (ok-injective h₄) in
    let size : n.0 ≡ length cpool =
      omega (arith, l, len, ap length same, new_pool-positive n.0 fits) in
    (
      (n.1, subst (λ k. readbytes 2 buf ≡ ok (k, n.1)) size read),
      λ j e g.
          let g' : get_elem? c j ≡ some e = subst (λ x. get_elem? x j ≡ some e) (sym same) g in
          (done j e g').0 (omega (arith, l, len, get_elem?-lt c j e g')),
    )

-- A constant pool that `parse_constant_pool` accepts has the size that the file gives, and every
-- entry of it that is tagged as Utf8, as Class or as a resolved String is a string.
pub parse_constant_pool-Named :
    (pool : StringPool) (buf : List ℕ) (cpool : List Entry) (pool' : StringPool) (buf' : List ℕ)
    → parse_constant_pool pool buf ≡ ok (cpool, pool', buf')
    → ((rest : List ℕ) × (readbytes 2 buf ≡ ok (length cpool, rest)))
      × ((j : ℕ) (e : Entry) → get_elem? cpool j ≡ some e → Named e)
parse_constant_pool-Named pool buf cpool pool' buf' h =
    let (size, linked) = parse_constant_pool-Linked pool buf cpool pool' buf' h in
    (size, λ j e g. (linked j e g).0)
