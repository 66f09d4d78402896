-- ===== src/X86/Fields.antt =====
-- The fields of ModR/M and SIB bytes (korp_src/ia32_jit/x86.cpp), put together and read again.
use mini_jvm.Common.{
  ℕ, ◌+◌, ◌*◌, ◌/◌, ◌%◌, ◌^◌, ◌<◌, ◌≡◌, ◌≢◌, List, ◌∷◌, true, ◌==◌, if◌then◌else◌, none, some,
  arith, or_fields,
}
use mini_jvm.X86.{modrm_byte, sib_byte, fits_disp8}
use mini_jvm.X86.Decode.{memory, decode, decode_sib, with_disp, sign_extend8}

pub modrm_fields : (a r b : ℕ) → a < 4 → r < 8 → b < 8 → modrm_byte a r b ≡ a * 64 + r * 8 + b
unfolding modrm_byte
modrm_fields a r b ha hr hb =
    let ea : a % 4 ≡ a = omega arith in
    let er : r % 8 ≡ r = omega arith in
    let eb : b % 8 ≡ b = omega arith in rw (ea, er, eb) (or_fields a r b ha hr hb)

pub sib_fields : (s i b : ℕ) → s < 4 → i < 8 → b < 8 → sib_byte s i b ≡ s * 64 + i * 8 + b
unfolding sib_byte
sib_fields a r b ha hr hb =
    let ea : a % 4 ≡ a = omega arith in
    let er : r % 8 ≡ r = omega arith in
    let eb : b % 8 ≡ b = omega arith in rw (ea, er, eb) (or_fields a r b ha hr hb)

-- The value of the four bytes, and of a byte that is a short displacement.
pub dword_value :
    (w : ℕ)
    → w < 2 ^ 32
    → w % 256 + w / 2 ^ 8 % 256 * 2 ^ 8 + w / 2 ^ 16 % 256 * 2 ^ 16 + w / 2 ^ 24 % 256 * 2 ^ 24 ≡ w
dword_value w h = omega arith

pub short_value : (w : ℕ) → w < 2 ^ 32 → fits_disp8 w ≡ true → sign_extend8 (w % 256) ≡ w
unfolding fits_disp8 sign_extend8
short_value w h f = ground arith

-- The decoder at a ModR/M byte given by its fields.
pub decode_fields :
    (a r b : ℕ) (rest : List ℕ)
    → a < 3
    → r < 8
    → b < 8
    → b ≢ 4
    → (a ≡ 0 → b ≢ 5)
    → decode ((a * 64 + r * 8 + b) ∷ rest)
      ≡ with_disp a r (λ d. memory (record { base = some b; index = none; disp = d })) rest
unfolding decode
decode_fields a r b rest ha hr hb n4 n5 =
    let ea : (a * 64 + r * 8 + b) / 64 ≡ a = omega arith in
    let er : (a * 64 + r * 8 + b) / 8 % 8 ≡ r = omega arith in
    let eb : (a * 64 + r * 8 + b) % 8 ≡ b = omega arith in rw (ea, er, eb) (ground arith)

pub decode_fields_sib :
    (a r s i b : ℕ) (rest : List ℕ)
    → a < 3
    → r < 8
    → s < 4
    → i < 8
    → b < 8
    → (a ≡ 0 → b ≢ 5)
    → decode ((a * 64 + r * 8 + 4) ∷ (s * 64 + i * 8 + b) ∷ rest)
      ≡ with_disp a r
          (λ d.
            memory
              (record { base = some b; index = if i == 4 then none else some (i, s); disp = d }))
          rest
unfolding decode decode_sib
decode_fields_sib a r s i b rest ha hr hs hi hb n5 =
    let ea : (a * 64 + r * 8 + 4) / 64 ≡ a = omega arith in
    let er : (a * 64 + r * 8 + 4) / 8 % 8 ≡ r = omega arith in
    let eb : (a * 64 + r * 8 + 4) % 8 ≡ 4 = omega arith in
    let es : (s * 64 + i * 8 + b) / 64 ≡ s = omega arith in
    let ei : (s * 64 + i * 8 + b) / 8 % 8 ≡ i = omega arith in
    let ec : (s * 64 + i * 8 + b) % 8 ≡ b = omega arith in
    rw (ea, er, eb, es, ei, ec) (ground arith)
