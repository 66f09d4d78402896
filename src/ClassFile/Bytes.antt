-- ===== src/ClassFile/Bytes.antt =====
-- The byte reader (`readbytes` of korp_src/class/class_parse.cpp) against big-endian numbers.
use mini_jvm.Common.{
  ℕ, zero, suc, ◌*◌, ◌/◌, ◌%◌, ◌^◌, ◌≤◌, ◌<◌, ◌≡◌, ap, List, [], ◌∷◌, ◌++◌, true, false, length,
  ltb, arith, ok, fault, reported,
}
use mini_jvm.ClassFile.{read_loop, readbytes}

-- The low `n` bytes of a number, the highest first.
unfoldable pub big_endian : ℕ → ℕ → List ℕ
big_endian zero v = []
big_endian (suc n) v = v / 2 ^ (8 * n) % 2 ^ 8 ∷ big_endian n v

enough : (n : ℕ) (pos : List ℕ) → n ≤ length pos → ltb (length pos) n ≡ false
enough n pos h = ground arith

-- A number of one, two or four bytes, written with the highest byte first, is what `readbytes`
-- reads, and it stops behind it; with fewer bytes left than it wants it reports the error.
pub readbytes-big_endian :
    (v : ℕ) (rest : List ℕ)
    → v < 2 ^ 32
    → (v < 2 ^ 8 → readbytes 1 (big_endian 1 v ++ rest) ≡ ok (v, rest))
      × (v < 2 ^ 16 → readbytes 2 (big_endian 2 v ++ rest) ≡ ok (v, rest))
      × (readbytes 4 (big_endian 4 v ++ rest) ≡ ok (v, rest))
      × ((n : ℕ) → 0 < n → n < 5 → length rest < n → readbytes n rest ≡ fault reported)
unfolding readbytes read_loop big_endian
readbytes-big_endian v rest h = (
  λ h₁. rw (enough 1 (big_endian 1 v ++ rest) (omega arith)) (ap (λ x. ok (x, rest)) (omega arith)),
  λ h₂. rw (enough 2 (big_endian 2 v ++ rest) (omega arith)) (ap (λ x. ok (x, rest)) (omega arith)),
  rw (enough 4 (big_endian 4 v ++ rest) (omega arith)) (ap (λ x. ok (x, rest)) (omega arith)),
  λ n p q l.
      let a : ltb 0 n ≡ true = ground arith in
      let b : ltb n 5 ≡ true = ground arith in
      let c : ltb (length rest) n ≡ true = ground arith in rw (a, b, c),
)
