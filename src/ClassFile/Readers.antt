-- ===== src/ClassFile/Readers.antt =====
-- The reader of class names (`cp_class_read_name` of korp_src/class/class_parse.cpp) on a linked
-- pool.
use mini_jvm.Common.{
  ℕ, zero, suc, ◌+◌, ◌*◌, ◌%◌, ◌^◌, ◌<◌, ◌≡◌, ◌≢◌, ◌↔◌, ◌⊎◌, inl, inr, refl, subst, List, [], ◌∷◌,
  true, false, not, ◌==◌, if◌then◌else◌, length, ltb, get_elem?, arith, Bool-cases, Option, none,
  some, Run, ok, fault, out_of_bounds, reported, ◌>>=◌, ◌>>◌, require, deref,
}
use mini_jvm.StringPool.{KString}
use mini_jvm.ClassFile.{
  Slot, tag_array, uint16_object, uint16_pair, int_object, long_object, string_object, ref_pair,
  member_object, Entry, read_loop, readbytes, as_string, cp_class_read_name,
}
use mini_jvm.ClassFile.Linked.Slots.{is_string, Named}

readbytes_2 :
    (buf : List ℕ)
    → (readbytes 2 buf ≡ fault reported)
      ⊎ ((i : ℕ) × (rest : List ℕ) × (readbytes 2 buf ≡ ok (i, rest)))
unfolding readbytes read_loop
readbytes_2 [] = inl refl
readbytes_2 (a ∷ []) = inl refl
readbytes_2 (a ∷ b ∷ r) =
    let l : ltb (length (a ∷ b ∷ r)) 2 ≡ false = ground arith in
    inr (((0 * 2 ^ 8 + a) % 2 ^ 32 * 2 ^ 8 + b) % 2 ^ 32, r, rw l)

as_string-ok : (s : Slot) → is_string s ≡ true → (k : KString) × (as_string s ≡ ok k)
unfolding as_string
as_string-ok (string_object k) h = (k, refl)
as_string-ok tag_array h = cc
as_string-ok (uint16_object n) h = cc
as_string-ok (uint16_pair m n) h = cc
as_string-ok (int_object n) h = cc
as_string-ok (long_object n) h = cc
as_string-ok (ref_pair a b) h = cc
as_string-ok (member_object n d) h = cc

get_elem?-none : (xs : List Entry) → get_elem? xs (length xs) ≡ none
get_elem?-none [] = refl
get_elem?-none (x ∷ xs) = get_elem?-none xs

get_elem?-some : (xs : List Entry) (i : ℕ) → i < length xs → (e : Entry) × (get_elem? xs i ≡ some e)
get_elem?-some [] i h = absurd (omega arith)
get_elem?-some (x ∷ xs) zero h = (x, refl)
get_elem?-some (x ∷ xs) (suc i) h = get_elem?-some xs i (omega arith)

-- What the reader does with the index that it has read.
of_index : List Entry → ℕ → List ℕ → Run (Option KString × List ℕ)
of_index cpool i buf =
    require (not (ltb (length cpool) i))
    >> (if i == 0 then ok (none, buf) else (do
      e ← deref out_of_bounds (get_elem? cpool i)
      require (e.tag == 7)
      s ← as_string e.slot
      ok (some s, buf)))

module _ (cpool : List Entry)
    (named : (j : ℕ) (e : Entry) → get_elem? cpool j ≡ some e → Named e) where
  of_index-inside :
      (i : ℕ) (buf : List ℕ) → i < length cpool → of_index cpool i buf ≢ fault out_of_bounds
  unfolding of_index
  of_index-inside i buf lt h =
      let b : ltb (length cpool) i ≡ false = ground arith in
      elim (Bool-cases (i == 0)) [
        | inl z ↦ absurd (ok_not (rw (b, z) at h))
        | inr z ↦
            let (e, at) = get_elem?-some cpool i lt in
            elim (Bool-cases (e.tag == 7)) [
              | inr t ↦
                  let k : of_index cpool i buf ≡ fault reported = rw (b, z, at, t) in absurd (cc)
              | inl t ↦
                  let (k, s) = as_string-ok e.slot (named i e at (ground arith)) in
                  absurd (ok_not (rw (b, z, at, t, s) at h))
            ]
      ]
    where
      ok_not : {a : Option KString × List ℕ} → ok a ≡ fault out_of_bounds → ⊥
      ok_not z = cc

  of_index-end :
      (buf : List ℕ) → 0 < length cpool → of_index cpool (length cpool) buf ≡ fault out_of_bounds
  unfolding of_index
  of_index-end buf p =
      let b : ltb (length cpool) (length cpool) ≡ false = ground arith in
      let z : (length cpool == 0) ≡ false = ground arith in rw (b, z, get_elem?-none cpool)

  of_index-behind :
      (i : ℕ) (buf : List ℕ) → length cpool < i → of_index cpool i buf ≡ fault reported
  unfolding of_index
  of_index-behind i buf p = let b : ltb (length cpool) i ≡ true = ground arith in rw b

  of_index_iff :
      (i : ℕ) (buf : List ℕ)
      → 0 < length cpool
      → of_index cpool i buf ≡ fault out_of_bounds
      → i ≡ length cpool
  of_index_iff i buf p h = elim (Bool-cases (ltb i (length cpool))) [
    | inl l ↦ absurd (of_index-inside i buf (ground arith) h)
    | inr l ↦ elim (Bool-cases (ltb (length cpool) i)) [
      | inl g ↦ let k = of_index-behind i buf (ground arith) in absurd (cc)
      | inr g ↦ ground arith
    ]
  ]

-- In a pool whose named entries are strings, such as `parse_constant_pool` leaves, the reader of
-- class names leaves the pool, or takes another object for a string, exactly when the index that it
-- reads equals the pool's size, which its check lets pass.
pub cp_class_read_name-out_of_bounds :
    (cpool : List Entry) (buf : List ℕ)
    → ((j : ℕ) (e : Entry) → get_elem? cpool j ≡ some e → Named e)
    → 0 < length cpool
    → (cp_class_read_name cpool buf ≡ fault out_of_bounds)
      ↔ ((rest : List ℕ) × (readbytes 2 buf ≡ ok (length cpool, rest)))
unfolding cp_class_read_name of_index
cp_class_read_name-out_of_bounds cpool buf named positive = (forth (readbytes_2 buf), back)
  where
    forth :
        ((readbytes 2 buf ≡ fault reported)
          ⊎ ((i : ℕ) × (rest : List ℕ) × (readbytes 2 buf ≡ ok (i, rest))))
        → cp_class_read_name cpool buf ≡ fault out_of_bounds
        → (rest : List ℕ) × (readbytes 2 buf ≡ ok (length cpool, rest))
    forth (inl r) h = absurd (cc)
    forth (inr (i, rest, r)) h =
        let q = of_index_iff cpool named i rest positive (rw r at h) in
        (rest, subst (λ k. readbytes 2 buf ≡ ok (k, rest)) q r)

    back :
        (rest : List ℕ) × (readbytes 2 buf ≡ ok (length cpool, rest))
        → cp_class_read_name cpool buf ≡ fault out_of_bounds
    back (rest, r) = rw r (of_index-end cpool named rest positive)
