-- ===== src/Utf8/Tests.antt =====
-- Runs of the UTF-8 conversions (korp_src/utils/utils.cpp) on concrete strings.
use mini_jvm.Common.{
  ◌>>=◌, ℕ, ◌^◌, ◌%◌, ◌≤◌, ◌≡◌, refl, List, [], ◌∷◌, length, arith, ok, fault, out_of_bounds,
}
use mini_jvm.Utf8.{pack_utf8, unpack_utf8, get_unicode_length_of_utf8, pack_into_chars}
use mini_jvm.Utf8.Roundtrip.{IsUnicode, unpack-pack, pack_into_chars_bounds, unicode_length-unpack}

-- One character of each length, the null character, and a surrogate.
abbrev text : List ℕ
text = 0x41 ∷ 0xe9 ∷ 0x20ac ∷ 0 ∷ 0xd83d ∷ []

text-IsUnicode : IsUnicode text
text-IsUnicode = (omega arith, (omega arith, (omega arith, (omega arith, (omega arith, tt)))))

pack_text :
    pack_utf8 text
    ≡ 0x41 ∷ 0xc3 ∷ 0xa9 ∷ 0xe2 ∷ 0x82 ∷ 0xac ∷ 0xc0 ∷ 0x80 ∷ 0xed ∷ 0xa0 ∷ 0xbd ∷ 0 ∷ []
unfolding pack_utf8
pack_text = refl

unpack-pack_example : unpack_utf8 (pack_utf8 text) ≡ ok text
unpack-pack_example = unpack-pack text text-IsUnicode

pack_into_chars_bounds_example :
    (length text ≤ 85 → pack_into_chars text ≡ ok (pack_utf8 text))
    × (256 ≤ length text → pack_into_chars text ≡ fault out_of_bounds)
pack_into_chars_bounds_example = pack_into_chars_bounds text text-IsUnicode

-- A truncated character, and no terminator.
abbrev broken : List ℕ
broken = 0x41 ∷ 0xe2 ∷ 0x82 ∷ []

unpack_broken : unpack_utf8 broken ≡ fault out_of_bounds
unfolding unpack_utf8
unpack_broken = refl

unicode_length-unpack_example :
    get_unicode_length_of_utf8 broken
    ≡ (unpack_utf8 broken >>= λ unicode. ok (length unicode % 2 ^ 32 % 2 ^ 16))
unicode_length-unpack_example = unicode_length-unpack broken
