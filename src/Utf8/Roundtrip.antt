-- ===== src/Utf8/Roundtrip.antt =====
-- Packing and unpacking (korp_src/utils/utils.cpp) undo one another, and the length functions
-- measure what they say.
use mini_jvm.Common.{
  ℕ, zero, suc, ◌+◌, ◌*◌, ◌%◌, ◌^◌, ◌≤◌, ◌≢◌, out_of_fuel, out_of_bounds, ◌<◌, List, [], ◌∷◌, ◌++◌,
  ltb, ◌==◌, length, All, Run, ok, fault, ◌>>=◌, ◌≡◌, refl, inl, inr, arith, shr, low_bits, or_0x80,
  or_0xc0, or_0xe0, append_assoc, length-append, append-nil, ap, Run-cases, Bool-cases, ==_iff,
  true, false,
}
use native.Mathlib.Nat.{zero-add}
use mini_jvm.Utf8.{
  pack_char, get_unicode_length_of_utf8, unicode_length_loop, skip_char, get_utf8_length_of_unicode,
  utf8_length_loop, pack_into_chars, pack_utf8, char_length, unpack_char, unpack_loop, unpack_utf8,
}

-- The values of a `uint16` array.
abbrev pub IsUnicode : List ℕ → Type 0
IsUnicode = All (λ ch. ch < 2 ^ 16)

-- What one packed character is: a first byte that is not the terminator, and `bs` behind it, from
-- which `unpack_char` reads the character back.
record IsPacked (ch : ℕ) (b : ℕ) (bs : List ℕ) : Type 0 where
  packs : pack_char ch ≡ b ∷ bs
  starts : (b == 0) ≡ false
  unpacks : (r : List ℕ) → unpack_char b (bs ++ r) ≡ ok (ch, r)
  measures : length bs + 1 ≡ char_length ch

pack_zero : IsPacked 0 0xc0 (0x80 ∷ [])
unfolding pack_char unpack_char char_length
pack_zero = record { packs = refl; starts = refl; unpacks = λ r. refl; measures = refl }

pack_one : (ch : ℕ) → (ch == 0) ≡ false → ltb ch 0x80 ≡ true → IsPacked ch ch []
unfolding pack_char unpack_char char_length
pack_one ch n0 lt = record {
  packs = ground arith;
  starts = n0;
  unpacks = λ r. ground arith;
  measures = ground arith;
}

pack_two :
    (ch : ℕ)
    → (ch == 0) ≡ false
    → ltb ch 0x80 ≡ false
    → ltb ch 0x800 ≡ true
    → IsPacked ch (0xc0 + low_bits (shr ch 6) 5) ((0x80 + low_bits ch 6) ∷ [])
unfolding pack_char unpack_char char_length
pack_two ch n0 n1 lt = record {
  packs = rw (
    n0,
    n1,
    lt,
    or_0xc0 (low_bits (shr ch 6) 5) (omega arith),
    or_0x80 (low_bits ch 6) (omega arith),
  );
  starts = ground arith;
  unpacks = λ r. ground arith;
  measures = ground arith;
}

pack_three :
    (ch : ℕ)
    → ch < 2 ^ 16
    → (ch == 0) ≡ false
    → ltb ch 0x80 ≡ false
    → ltb ch 0x800 ≡ false
    → IsPacked ch
        (0xe0 + low_bits (shr ch 12) 4)
        ((0x80 + low_bits (shr ch 6) 6) ∷ (0x80 + low_bits ch 6) ∷ [])
unfolding pack_char unpack_char char_length
pack_three ch h n0 n1 n2 = record {
  packs = rw (
    n0,
    n1,
    n2,
    or_0xe0 (low_bits (shr ch 12) 4) (omega arith),
    or_0x80 (low_bits (shr ch 6) 6) (omega arith),
    or_0x80 (low_bits ch 6) (omega arith),
  );
  starts = ground arith;
  unpacks = λ r. ground arith;
  measures = ground arith;
}

pack_forms : (ch : ℕ) → ch < 2 ^ 16 → (b : ℕ) × (bs : List ℕ) × IsPacked ch b bs
pack_forms ch h = elim (Bool-cases (ch == 0)) [
  | inl z ↦ (0xc0, 0x80 ∷ [], rw ((==_iff ch 0).0 z) pack_zero)
  | inr n0 ↦ elim (Bool-cases (ltb ch 0x80)) [
    | inl lt ↦ (_, _, pack_one ch n0 lt)
    | inr n1 ↦ elim (Bool-cases (ltb ch 0x800)) [
      | inl lt ↦ (_, _, pack_two ch n0 n1 lt)
      | inr n2 ↦ (_, _, pack_three ch h n0 n1 n2)
    ]
  ]
]

unpack_loop-pack :
    (fuel : ℕ) (unicode r : List ℕ)
    → IsUnicode unicode
    → length unicode < fuel
    → unpack_loop fuel (pack_utf8 unicode ++ r) ≡ ok unicode
unfolding unpack_loop pack_utf8
unpack_loop-pack zero unicode r u h = absurd (omega arith)
unpack_loop-pack (suc fuel) [] r u h = refl
unpack_loop-pack (suc fuel) (ch ∷ unicode) r (c, u) h =
    let (b, bs, p) = pack_forms ch c in
    rw (p.packs, append_assoc, p.starts, p.unpacks, unpack_loop-pack fuel unicode r u (omega arith))

-- The bytes without the terminator, counted exactly.
utf8_size : List ℕ → ℕ
utf8_size [] = 0
utf8_size (ch ∷ unicode) = char_length ch + utf8_size unicode

length-pack :
    (unicode : List ℕ) → IsUnicode unicode → length (pack_utf8 unicode) ≡ utf8_size unicode + 1
unfolding pack_utf8 utf8_size
length-pack [] u = refl
length-pack (ch ∷ unicode) (c, u) =
    let (b, bs, p) = pack_forms ch c in
    rw (p.packs, length-append) (omega (arith, p.measures, length-pack unicode u))

length-le-size : (unicode : List ℕ) → length unicode ≤ utf8_size unicode
unfolding utf8_size char_length
length-le-size [] = omega arith
length-le-size (ch ∷ unicode) = ground (arith, length-le-size unicode)

size-le-length : (unicode : List ℕ) → utf8_size unicode ≤ 3 * length unicode
unfolding utf8_size char_length
size-le-length [] = omega arith
size-le-length (ch ∷ unicode) = ground (arith, size-le-length unicode)

-- Unpacking what `pack_utf8` wrote gives back the same `uint16` array, 0 and surrogates included.
pub unpack-pack :
    (unicode : List ℕ) → IsUnicode unicode → unpack_utf8 (pack_utf8 unicode) ≡ ok unicode
unfolding unpack_utf8
unpack-pack unicode u =
    let fits : length unicode < suc (length (pack_utf8 unicode)) =
      omega (arith, length-pack unicode u, length-le-size unicode) in
    rw append-nil at (unpack_loop-pack (suc (length (pack_utf8 unicode))) unicode [] u fits)

-- `unpack_char` and `skip_char` read the same bytes.
skip-unpack : (ch : ℕ) (utf8 : List ℕ) → skip_char ch utf8 ≡ (unpack_char ch utf8 >>= λ r. ok r.1)
unfolding skip_char unpack_char
skip-unpack ch [] = ground arith
skip-unpack ch (y ∷ []) = ground arith
skip-unpack ch (y ∷ z ∷ r) = ground arith

-- One round of both loops, whatever `unpack_char` returned, given that the rest agrees.
length_round :
    (fuel len : ℕ) (m : Run (ℕ × List ℕ))
    → ((utf8 : List ℕ)
        → unicode_length_loop fuel ((len + 1) % 2 ^ 32) utf8 ≡ (
            unpack_loop fuel utf8 >>= λ unicode.
            ok (((len + 1) % 2 ^ 32 + length unicode) % 2 ^ 32 % 2 ^ 16)))
    → (m >>= (λ r. ok r.1) >>= λ utf8. unicode_length_loop fuel ((len + 1) % 2 ^ 32) utf8) ≡ (
        m >>= (λ r. unpack_loop fuel r.1 >>= λ unicode. ok (r.0 ∷ unicode)) >>= λ unicode.
        ok ((len + length unicode) % 2 ^ 32 % 2 ^ 16))
length_round fuel len (fault e) ih = refl
length_round fuel len (ok (u, utf8)) ih = elim (Run-cases (unpack_loop fuel utf8)) [
  | inl (unicode, e) ↦ rw (ih utf8, e) (ap ok (omega arith))
  | inr (f, e) ↦ rw (ih utf8, e)
]

length_loop-unpack :
    (fuel len : ℕ) (utf8 : List ℕ)
    → len < 2 ^ 32
    → unicode_length_loop fuel len utf8
      ≡ (unpack_loop fuel utf8 >>= λ unicode. ok ((len + length unicode) % 2 ^ 32 % 2 ^ 16))
unfolding unicode_length_loop unpack_loop
length_loop-unpack zero len utf8 h = refl
length_loop-unpack (suc fuel) len [] h = refl
length_loop-unpack (suc fuel) len (ch ∷ utf8) h = elim (Bool-cases (ch == 0)) [
  | inl z ↦ rw z (ap ok (omega arith))
  | inr n ↦
      rw (n, skip-unpack ch utf8)
        (length_round fuel len (unpack_char ch utf8)
          (λ r. length_loop-unpack fuel ((len + 1) % 2 ^ 32) r (omega arith)))
]

-- On every byte string, well-formed or not, `get_unicode_length_of_utf8` returns the number of
-- characters that `unpack_utf8` writes, modulo 2 ^ 16, and stops where that one stops.
pub unicode_length-unpack :
    (utf8 : List ℕ)
    → get_unicode_length_of_utf8 utf8
      ≡ (unpack_utf8 utf8 >>= λ unicode. ok (length unicode % 2 ^ 32 % 2 ^ 16))
unfolding get_unicode_length_of_utf8 unpack_utf8
unicode_length-unpack utf8 =
    simp zero-add at (length_loop-unpack (suc (length utf8)) 0 utf8 (omega arith))

unpack_char-shrinks :
    (ch : ℕ) (utf8 : List ℕ)
    → (unpack_char ch utf8 ≢ fault out_of_fuel)
      × ((u : ℕ) (r : List ℕ) → unpack_char ch utf8 ≡ ok (u, r) → length r ≤ length utf8)
unfolding unpack_char
unpack_char-shrinks ch [] = (ground arith, λ u r h. ground arith)
unpack_char-shrinks ch (y ∷ []) = (ground arith, λ u r h. ground arith)
unpack_char-shrinks ch (y ∷ z ∷ t) = (ground arith, λ u r h. ground arith)

bind-ok-ne_fuel :
    (ch : ℕ) (m : Run (List ℕ))
    → m ≢ fault out_of_fuel
    → (m >>= λ unicode. ok (ch ∷ unicode)) ≢ fault out_of_fuel
bind-ok-ne_fuel ch (ok u) n = cc
bind-ok-ne_fuel ch (fault e) n = λ h. n (cc)

-- With more fuel than bytes the loop never runs out: a round reads at least one byte.
unpack_loop-fuel :
    (fuel : ℕ) (utf8 : List ℕ) → length utf8 < fuel → unpack_loop fuel utf8 ≢ fault out_of_fuel
unfolding unpack_loop
unpack_loop-fuel zero utf8 h = absurd (omega arith)
unpack_loop-fuel (suc fuel) [] h = cc
unpack_loop-fuel (suc fuel) (ch ∷ utf8) h = elim (Bool-cases (ch == 0)) [
  | inl z ↦ rw z (cc)
  | inr n ↦ elim (Run-cases (unpack_char ch utf8)) [
    | inl ((u, r), e) ↦
        rw (n, e)
          (bind-ok-ne_fuel u (unpack_loop fuel r)
            (unpack_loop-fuel fuel r (omega (arith, (unpack_char-shrinks ch utf8).1 u r e))))
    | inr (f, e) ↦ rw (n, e) (λ h. (unpack_char-shrinks ch utf8).0 (cc))
  ]
]

-- The fuel of `unpack_utf8` is enough on every byte string, also without a terminator.
pub unpack-ne_fuel : (utf8 : List ℕ) → unpack_utf8 utf8 ≢ fault out_of_fuel
unfolding unpack_utf8
unpack-ne_fuel utf8 = unpack_loop-fuel (suc (length utf8)) utf8 (omega arith)

utf8_length-size :
    (len : ℕ) (unicode : List ℕ)
    → len < 2 ^ 32
    → utf8_length_loop len unicode ≡ (len + utf8_size unicode) % 2 ^ 32 % 2 ^ 16
unfolding utf8_length_loop utf8_size
utf8_length-size len [] h = omega arith
utf8_length-size len (ch ∷ unicode) h =
    omega (arith, utf8_length-size ((len + char_length ch) % 2 ^ 32) unicode (omega arith))

-- Of an array of `uint16`, `get_utf8_length_of_unicode` is the number of bytes that `pack_utf8`
-- writes before the terminator, modulo 2 ^ 16.
pub utf8_length-pack :
    (unicode : List ℕ)
    → IsUnicode unicode
    → (get_utf8_length_of_unicode unicode + 1) % 2 ^ 16 ≡ length (pack_utf8 unicode) % 2 ^ 16
unfolding get_utf8_length_of_unicode
utf8_length-pack unicode u =
    omega (arith, utf8_length-size 0 unicode (omega arith), length-pack unicode u)

-- `new_kstring_from_jarray` stays inside its 256 bytes for every array of at most 85 characters,
-- and writes behind them for every array of 256 characters or more.
pub pack_into_chars_bounds :
    (unicode : List ℕ)
    → IsUnicode unicode
    → (length unicode ≤ 85 → pack_into_chars unicode ≡ ok (pack_utf8 unicode))
      × (256 ≤ length unicode → pack_into_chars unicode ≡ fault out_of_bounds)
unfolding pack_into_chars
pack_into_chars_bounds unicode u = (
  λ h. ground (arith, length-pack unicode u, size-le-length unicode),
  λ h. ground (arith, length-pack unicode u, length-le-size unicode),
)
