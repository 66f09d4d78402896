-- ===== src/X86/Decode.antt =====
-- How an IA-32 processor reads a ModR/M byte with what follows it (the addressing-form tables for
-- 32-bit mode), as an independent description that the emitter is held against.
use mini_jvm.Common.{
  ℕ, ◌+◌, ◌*◌, ◌-◌, ◌/◌, ◌%◌, ◌^◌, List, [], ◌∷◌, ◌&&◌, ltb, ◌==◌, if◌then◌else◌, Option, none,
  some,
}

-- `[base + index * 2^scale + disp]`, with parts that may be missing.
pub record Address : Type 0 where
  pub base : Option ℕ
  pub index : Option (ℕ × ℕ)
  pub disp : ℕ

pub data Operand : Type 0 where
  register : ℕ → Operand
  memory : Address → Operand

-- The field reg/opcode, the operand of the field r/m, and the bytes behind.
abbrev pub Decoded : Type 0
Decoded = ℕ × Operand × List ℕ

unfoldable pub sign_extend8 : ℕ → ℕ
sign_extend8 b = if ltb b 128 then b else 2 ^ 32 - 256 + b

unfoldable pub disp8 : ℕ → (ℕ → Operand) → List ℕ → Option Decoded
disp8 reg at (d ∷ rest) = some (reg, at (sign_extend8 d), rest)
disp8 reg at _ = none

unfoldable pub disp32 : ℕ → (ℕ → Operand) → List ℕ → Option Decoded
disp32 reg at (a ∷ b ∷ c ∷ d ∷ rest) =
    some (reg, at (a + b * 2 ^ 8 + c * 2 ^ 16 + d * 2 ^ 24), rest)
disp32 reg at _ = none

-- The displacement that the field mod announces.
unfoldable pub with_disp : ℕ → ℕ → (ℕ → Operand) → List ℕ → Option Decoded
with_disp mod_ reg at rest =
    if mod_ == 0
    then some (reg, at 0, rest)
    else if mod_ == 1
    then disp8 reg at rest
    else disp32 reg at rest

-- Index 4 means that there is none, and base 5 under mod 0 that there is no base.
unfoldable pub decode_sib : ℕ → ℕ → List ℕ → Option Decoded
decode_sib mod_ reg [] = none
decode_sib mod_ reg (s ∷ rest) =
    let scaled = if s / 8 % 8 == 4 then none else some (s / 8 % 8, s / 64) in
    if mod_ == 0 && s % 8 == 5
    then disp32 reg (λ d. memory (record { base = none; index = scaled; disp = d })) rest
    else with_disp mod_ reg (λ d. memory (record { base = some (s % 8); index = scaled; disp = d }))
        rest

unfoldable pub decode : List ℕ → Option Decoded
decode [] = none
decode (b ∷ rest) =
    let mod_ = b / 64 in
    let reg = b / 8 % 8 in
    let rm = b % 8 in
    if mod_ == 3
    then some (reg, register rm, rest)
    else if rm == 4
    then decode_sib mod_ reg rest
    else if mod_ == 0 && rm == 5
    then disp32 reg (λ d. memory (record { base = none; index = none; disp = d })) rest
    else with_disp mod_ reg (λ d. memory (record { base = some rm; index = none; disp = d })) rest
