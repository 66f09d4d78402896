-- ===== src/Utf8.antt =====
-- Modified UTF-8 (korp_src/utils/utils.cpp): `get_unicode_length_of_utf8`,
-- `get_utf8_length_of_unicode`, `pack_utf8` and `unpack_utf8`.
-- A C string is the list of its bytes with the terminating 0, and a pointer into it is the list of
-- the bytes from there on: reading behind the last byte is the fault `out_of_bounds`. A function
-- that writes through a pointer returns the list of what it writes.
pub mod Roundtrip
mod Tests
use mini_jvm.Common.{
  ℕ, zero, suc, ◌+◌, ◌*◌, ◌%◌, ◌^◌, List, [], ◌∷◌, ◌++◌, ltb, ◌==◌, if◌then◌else◌, length, Run, ok,
  fault, out_of_fuel, out_of_bounds, leb, ◌>>=◌, ◌>>◌, assert, next, shr, low_bits, has_bit, bit_or,
}

-- One round of the loop of `get_unicode_length_of_utf8`, after `ch` was read: what is skipped.
unfoldable pub skip_char : ℕ → List ℕ → Run (List ℕ)
skip_char ch utf8 =
    if has_bit ch 7
    then (do
      assert (has_bit ch 6)
      if has_bit ch 5
          then (do (_, utf8) ← next utf8; (_, utf8) ← next utf8; ok utf8)
          else (do (_, utf8) ← next utf8; ok utf8))
    else ok utf8

-- The loop on fuel; `len` is `unsigned`, and each round consumes a byte.
unfoldable pub unicode_length_loop : ℕ → ℕ → List ℕ → Run ℕ
unfolding skip_char
unicode_length_loop zero len utf8 = fault out_of_fuel
unicode_length_loop (suc fuel) len utf8 = do
  (ch, utf8) ← next utf8
  let rest = (do utf8 ← skip_char ch utf8; unicode_length_loop fuel ((len + 1) % 2 ^ 32) utf8)
  if ch == 0 then ok (len % 2 ^ 16) else rest

unfoldable pub get_unicode_length_of_utf8 : List ℕ → Run ℕ
unfolding unicode_length_loop
get_unicode_length_of_utf8 utf8 = unicode_length_loop (suc (length utf8)) 0 utf8

-- The number of bytes of one `uint16`.
unfoldable pub char_length : ℕ → ℕ
char_length ch = if ch == 0 then 2 else if ltb ch 0x80 then 1 else if ltb ch 0x800 then 2 else 3

unfoldable pub utf8_length_loop : ℕ → List ℕ → ℕ
unfolding char_length
utf8_length_loop len [] = len % 2 ^ 16
utf8_length_loop len (ch ∷ unicode) = utf8_length_loop ((len + char_length ch) % 2 ^ 32) unicode

unfoldable pub get_utf8_length_of_unicode : List ℕ → ℕ
unfolding utf8_length_loop
get_utf8_length_of_unicode unicode = utf8_length_loop 0 unicode

-- The bytes that one round of `pack_utf8` writes.
unfoldable pub pack_char : ℕ → List ℕ
pack_char ch =
    let b5_0 = low_bits ch 6 in
    let b10_6 = low_bits (shr ch 6) 5 in
    let b11_6 = low_bits (shr ch 6) 6 in
    let b15_12 = low_bits (shr ch 12) 4 in
    if ch == 0
    then 0xc0 ∷ 0x80 ∷ []
    else if ltb ch 0x80
    then ch ∷ []
    else if ltb ch 0x800
    then bit_or 0xc0 b10_6 ∷ bit_or 0x80 b5_0 ∷ []
    else bit_or 0xe0 b15_12 ∷ bit_or 0x80 b11_6 ∷ bit_or 0x80 b5_0 ∷ []

unfoldable pub pack_utf8 : List ℕ → List ℕ
unfolding pack_char
pack_utf8 [] = 0 ∷ []
pack_utf8 (ch ∷ unicode) = pack_char ch ++ pack_utf8 unicode

-- One round of `unpack_utf8`, after `ch` was read: the `uint16` that is written, and the rest.
unfoldable pub unpack_char : ℕ → List ℕ → Run (ℕ × List ℕ)
unpack_char ch utf8 =
    if has_bit ch 7
    then (do
      assert (has_bit ch 6)
      if has_bit ch 5
          then (do
            (y, utf8) ← next utf8
            (z, utf8) ← next utf8
            ok ((low_bits ch 4 * 2 ^ 12 + low_bits y 6 * 2 ^ 6 + low_bits z 6) % 2 ^ 16, utf8))
          else (do
            (y, utf8) ← next utf8
            ok ((low_bits ch 5 * 2 ^ 6 + low_bits y 6) % 2 ^ 16, utf8)))
    else ok (ch, utf8)

unfoldable pub unpack_loop : ℕ → List ℕ → Run (List ℕ)
unfolding unpack_char
unpack_loop zero utf8 = fault out_of_fuel
unpack_loop (suc fuel) utf8 = do
  (ch, utf8) ← next utf8
  let rest = (do (u, utf8) ← unpack_char ch utf8; unicode ← unpack_loop fuel utf8; ok (u ∷ unicode))
  if ch == 0 then ok [] else rest

unfoldable pub unpack_utf8 : List ℕ → Run (List ℕ)
unfolding unpack_loop
unpack_utf8 utf8 = unpack_loop (suc (length utf8)) utf8

-- `char chars[256]; pack_utf8(chars, jarr->value, jarr->length)` of `new_kstring_from_jarray`: a
-- write behind the buffer is a fault, and the string that the pool is asked for is returned.
unfoldable pub pack_into_chars : List ℕ → Run (List ℕ)
unfolding pack_utf8
pack_into_chars unicode =
    let written = pack_utf8 unicode in
    if leb (length written) 256 then ok written else fault out_of_bounds
