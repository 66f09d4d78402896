-- ===== src/ClassFile/Linked/Slots.antt =====
-- The entries that the first loop of `parse_constant_pool` (korp_src/class/class_parse.cpp) writes.
use mini_jvm.Common.{
  ℕ, zero, suc, ◌%◌, ◌<◌, ◌≡◌, inl, inr, refl, sym, ap, ◌∙◌, subst, List, Bool, true, false, ◌||◌,
  ◌==◌, ==_iff, length, ltb, arith, Bool-cases, All, ok, fault, reported, >>=-eq-ok, ok-injective,
}
use mini_jvm.StringPool.{StringPool, string_pool_lookup}
use mini_jvm.ClassFile.{
  Slot, tag_array, uint16_object, uint16_pair, int_object, long_object, string_object, ref_pair,
  member_object, Entry, readbytes,
}
use mini_jvm.ClassFile.Pool.{
  Parsed, read_chars, parse_utf8, parse_entry, left_behind, entries_of, parse_slots,
}

abbrev pub is_string : Slot → Bool
is_string (string_object s) = true
is_string tag_array = false
is_string (uint16_object n) = false
is_string (uint16_pair m n) = false
is_string (int_object n) = false
is_string (long_object n) = false
is_string (ref_pair a b) = false
is_string (member_object n d) = false

-- The entries that name something: Utf8, Class, and a resolved String.
abbrev pub is_name : ℕ → Bool
is_name tag = tag % 16 == 1 || (tag == 7 || tag == 0x88)

abbrev pub Named : Entry → Type 0
Named e = is_name e.tag ≡ true → is_string e.slot ≡ true

-- Behind the second loop no tag is that of an unresolved String.
abbrev pub Linked : Entry → Type 0
Linked e = Named e × (e.tag ≡ 8 → ⊥)

abbrev pub Utf8Named : Entry → Type 0
Utf8Named e = (e.tag % 16 == 1) ≡ true → is_string e.slot ≡ true

-- An entry before it is linked.
abbrev pub Raw : Entry → Type 0
Raw e = (e.tag < 16) × Utf8Named e

-- The first loop.
parse_utf8-string :
    (pool : StringPool) (buf : List ℕ) (p : Parsed)
    → parse_utf8 pool buf ≡ ok p
    → is_string p.slot ≡ true
unfolding parse_utf8
parse_utf8-string pool buf p h =
    let (n, _, h₁) = >>=-eq-ok (readbytes 2 buf) _ h in
    let (c, _, h₂) = >>=-eq-ok (read_chars n.0 n.1) _ h₁ in
    let (s, _, h₃) = >>=-eq-ok (string_pool_lookup pool c.0) _ h₂ in
    ap (λ (x : Parsed). is_string x.slot) (sym (ok-injective h₃))

bad_tag :
    (tag : ℕ) (pool : StringPool) (buf : List ℕ)
    → ltb tag 13 ≡ false
    → parse_entry tag pool buf ≡ fault reported
unfolding parse_entry
bad_tag tag pool buf b =
    let no : (k : ℕ) → k < 13 → (tag == k) ≡ false = λ k l. ground arith in
    rw (
      no 7 (omega arith),
      no 8 (omega arith),
      no 9 (omega arith),
      no 10 (omega arith),
      no 11 (omega arith),
      no 12 (omega arith),
      no 3 (omega arith),
      no 4 (omega arith),
      no 5 (omega arith),
      no 6 (omega arith),
      no 1 (omega arith),
    )

parse_entry-Raw :
    (tag : ℕ) (pool : StringPool) (buf : List ℕ) (p : Parsed)
    → parse_entry tag pool buf ≡ ok p
    → Raw (record { tag = tag; slot = p.slot })
unfolding parse_entry
parse_entry-Raw tag pool buf p h = elim (Bool-cases (tag == 1)) [
  | inl t ↦
      let q : tag ≡ 1 = (==_iff tag 1).0 t in
      (
        omega arith,
        λ _. parse_utf8-string pool buf p (subst (λ k. parse_entry k pool buf ≡ ok p) q h),
      )
  | inr t ↦ elim (Bool-cases (ltb tag 13)) [
    | inl b ↦ (ground arith, λ g. absurd (ground arith))
    | inr b ↦ absurd (no_tag (bad_tag tag pool buf b) h)
  ]
]
  where
    no_tag : parse_entry tag pool buf ≡ fault reported → parse_entry tag pool buf ≡ ok p → ⊥
    no_tag x z = cc

entries_of-Raw :
    (tag : ℕ) (s : Slot) (w : Bool) (rest : List Entry)
    → Raw (record { tag = tag; slot = s })
    → All Raw rest
    → All Raw (entries_of tag s w rest)
unfolding entries_of
entries_of-Raw tag s false rest r a = (r, a)
entries_of-Raw tag s true rest r a = (r, (r, a))

entries_of-length :
    (tag : ℕ) (s : Slot) (w : Bool) (rest : List Entry) (n m : ℕ)
    → left_behind w n ≡ ok m
    → length rest ≡ m
    → length (entries_of tag s w rest) ≡ suc n
unfolding entries_of left_behind
entries_of-length tag s false rest n m h l = ap suc (l ∙ sym (ok-injective h))
entries_of-length tag s true rest zero m h l = cc
entries_of-length tag s true rest (suc n) m h l = ap (λ k. suc (suc k)) (l ∙ sym (ok-injective h))

pub parse_slots-Raw :
    (fuel n : ℕ) (pool : StringPool) (buf : List ℕ) (r : List Entry × StringPool × List ℕ)
    → parse_slots fuel n pool buf ≡ ok r
    → All Raw r.0 × (length r.0 ≡ n)
unfolding parse_slots
parse_slots-Raw fuel zero pool buf r h =
    subst (λ (x : List Entry × StringPool × List ℕ). All Raw x.0 × (length x.0 ≡ 0))
      (ok-injective h) (tt, refl)
parse_slots-Raw zero (suc n) pool buf r h = cc
parse_slots-Raw (suc k) (suc n) pool buf r h =
    let (t, _, h₁) = >>=-eq-ok (readbytes 1 buf) _ h in
    let (p, run, h₂) = >>=-eq-ok (parse_entry t.0 pool t.1) _ h₁ in
    let (m, left, h₃) = >>=-eq-ok (left_behind p.wide n) _ h₂ in
    let (q, rest, h₄) = >>=-eq-ok (parse_slots k m p.pool p.buf) _ h₃ in
    let (a, l) = parse_slots-Raw k m p.pool p.buf q rest in
    subst (λ (x : List Entry × StringPool × List ℕ). All Raw x.0 × (length x.0 ≡ suc n))
      (ok-injective h₄)
      (
        entries_of-Raw t.0 p.slot p.wide q.0 (parse_entry-Raw t.0 pool t.1 p run) a,
        entries_of-length t.0 p.slot p.wide q.0 n m left l,
      )
