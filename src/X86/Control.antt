-- ===== src/X86/Control.antt =====
-- Multiplication, addresses, the stack and jumps (korp_src/ia32_jit/x86.cpp). A jump in mode TARGET
-- depends on the address `buf` at which it is emitted.
use mini_jvm.Common.{
  ℕ, ◌+◌, ◌-◌, ◌%◌, ◌^◌, List, [], ◌∷◌, ◌++◌, Bool, ◌==◌, if◌then◌else◌, ok, fault, assert_failed,
  ◌>>=◌, ◌>>◌, assert,
}
use mini_jvm.X86.{
  Mode, target, i_d, i_w, i_b, r_d, r_w, r_b, m_d, m_w, m_b, rm_d, rm_w, rm_b, rri_d, rri_w, rmi_d,
  rmi_w, rrr_d, rrr_w, rrm_d, rrm_w, Opnd, value, imm_opnd_inst,
}
use mini_jvm.X86.Emit.{Emitted, ◌then_emit◌, opnd_size_prefix, rm_opnd_inst, mem_opnd_inst}

pub data MuldivKind : Type 0 where
  op_mul op_imul op_div op_idiv : MuldivKind

-- `mdkind+4`
abbrev pub muldiv_opcode : MuldivKind → ℕ
muldiv_opcode op_mul = 4
muldiv_opcode op_imul = 5
muldiv_opcode op_div = 6
muldiv_opcode op_idiv = 7

unfoldable pub muldiv : MuldivKind → Opnd → Mode → Emitted
muldiv k opnd r_w = (opnd_size_prefix ∷ 0xf7 ∷ []) then_emit rm_opnd_inst opnd (muldiv_opcode k) r_w
muldiv k opnd m_w = (opnd_size_prefix ∷ 0xf7 ∷ []) then_emit rm_opnd_inst opnd (muldiv_opcode k) m_w
muldiv k opnd r_d = (0xf7 ∷ []) then_emit rm_opnd_inst opnd (muldiv_opcode k) r_d
muldiv k opnd m_d = (0xf7 ∷ []) then_emit rm_opnd_inst opnd (muldiv_opcode k) m_d
muldiv k opnd r_b = (0xf6 ∷ []) then_emit rm_opnd_inst opnd (muldiv_opcode k) r_b
muldiv k opnd m_b = (0xf6 ∷ []) then_emit rm_opnd_inst opnd (muldiv_opcode k) m_b
muldiv k opnd _ = fault assert_failed

module _ (opnd1 opnd2 opnd3 : Opnd) where
  abbrev imul_imm : Mode → Emitted
  imul_imm mode = do
    bytes ← rm_opnd_inst opnd2 (value opnd1 % 256) mode
    imm ← imm_opnd_inst (value opnd3) mode
    ok (0x69 ∷ (bytes ++ imm))

  abbrev imul_rm : Mode → Emitted
  imul_rm mode = do
    assert (value opnd1 == value opnd2)
    (0x0F ∷ 0xAF ∷ []) then_emit rm_opnd_inst opnd3 (value opnd2 % 256) mode

  unfoldable pub imul : Mode → Emitted
  imul rri_w = (opnd_size_prefix ∷ []) then_emit imul_imm rri_w
  imul rmi_w = (opnd_size_prefix ∷ []) then_emit imul_imm rmi_w
  imul rri_d = imul_imm rri_d
  imul rmi_d = imul_imm rmi_d
  imul rrr_w = (opnd_size_prefix ∷ []) then_emit imul_rm rrr_w
  imul rrm_w = (opnd_size_prefix ∷ []) then_emit imul_rm rrm_w
  imul rrr_d = imul_rm rrr_d
  imul rrm_d = imul_rm rrm_d
  imul _ = fault assert_failed

unfoldable pub lea : ℕ → Opnd → Mode → Emitted
lea opnd1 opnd2 rm_w = (opnd_size_prefix ∷ 0x8d ∷ []) then_emit mem_opnd_inst opnd2 opnd1
lea opnd1 opnd2 rm_d = (0x8d ∷ []) then_emit mem_opnd_inst opnd2 opnd1
lea opnd1 opnd2 _ = fault assert_failed

unfoldable pub push : Opnd → Mode → Emitted
push opnd r_w = ok (opnd_size_prefix ∷ (0x50 + value opnd % 256) % 256 ∷ [])
push opnd r_d = ok ((0x50 + value opnd % 256) % 256 ∷ [])
push opnd m_w = (opnd_size_prefix ∷ 0xFF ∷ []) then_emit mem_opnd_inst opnd 6
push opnd m_d = (0xFF ∷ []) then_emit mem_opnd_inst opnd 6
push opnd i_w = (opnd_size_prefix ∷ 0x68 ∷ []) then_emit imm_opnd_inst (value opnd) i_w
push opnd i_d = (0x68 ∷ []) then_emit imm_opnd_inst (value opnd) i_d
push opnd _ = fault assert_failed

unfoldable pub pop : Opnd → Mode → Emitted
pop opnd r_w = ok (opnd_size_prefix ∷ (0x58 + value opnd % 256) % 256 ∷ [])
pop opnd r_d = ok ((0x58 + value opnd % 256) % 256 ∷ [])
pop opnd m_w = (opnd_size_prefix ∷ 0x8F ∷ []) then_emit mem_opnd_inst opnd 6
pop opnd m_d = (0x8F ∷ []) then_emit mem_opnd_inst opnd 6
pop opnd _ = fault assert_failed

-- The bytes before the returned pointer: with an argument size the pointer stands behind the
-- opcode, and the two bytes that `imm_opnd_inst` wrote lie behind it, for the next emitter to
-- overwrite.
unfoldable pub ret : ℕ → List ℕ
ret imm = if imm == 0 then 0xc3 ∷ [] else 0xc2 ∷ []

-- `(int32)((uint8*)target-buf-size)`
unfoldable pub relative : ℕ → ℕ → ℕ → ℕ
relative size dest buf = (dest + 2 ^ 32 - buf % 2 ^ 32 + 2 ^ 32 - size) % 2 ^ 32

unfoldable pub call : ℕ → Opnd → Mode → Emitted
call buf dest i_w = (opnd_size_prefix ∷ 0xE8 ∷ []) then_emit imm_opnd_inst (value dest) i_w
call buf dest i_d = (0xE8 ∷ []) then_emit imm_opnd_inst (value dest) i_d
call buf dest m_w = (opnd_size_prefix ∷ 0xFF ∷ []) then_emit rm_opnd_inst dest 2 m_w
call buf dest r_w = (opnd_size_prefix ∷ 0xFF ∷ []) then_emit rm_opnd_inst dest 2 r_w
call buf dest m_d = (0xFF ∷ []) then_emit rm_opnd_inst dest 2 m_d
call buf dest r_d = (0xFF ∷ []) then_emit rm_opnd_inst dest 2 r_d
call buf dest target = (0xE8 ∷ []) then_emit imm_opnd_inst (relative 5 (value dest) buf) i_d
call buf dest _ = fault assert_failed

-- `cc` is a `korp_cc_kind`, the opcode of the short branch.
unfoldable pub branch : ℕ → ℕ → ℕ → Mode → Emitted
branch buf cc_kind dest i_b = ok (cc_kind ∷ dest % 256 ∷ [])
branch buf cc_kind dest i_d = (0x0f ∷ (cc_kind + 0x10) % 256 ∷ []) then_emit imm_opnd_inst dest i_d
branch buf cc_kind dest target =
    (0x0f ∷ (cc_kind + 0x10) % 256 ∷ []) then_emit imm_opnd_inst (relative 6 dest buf) i_d
branch buf cc_kind dest _ = fault assert_failed

unfoldable pub jump : ℕ → Opnd → Mode → Emitted
jump buf dest i_b = ok (0xEB ∷ value dest % 256 ∷ [])
jump buf dest i_d = (0xE9 ∷ []) then_emit imm_opnd_inst (value dest) i_d
jump buf dest r_d = (0xFF ∷ []) then_emit rm_opnd_inst dest 4 r_d
jump buf dest m_d = (0xFF ∷ []) then_emit rm_opnd_inst dest 4 m_d
jump buf dest target = (0xE9 ∷ []) then_emit imm_opnd_inst (relative 5 (value dest) buf) i_d
jump buf dest _ = fault assert_failed

abbrev widen_opcode : Bool → ℕ
widen_opcode is_signed = if is_signed then 0xBE else 0xB6

unfoldable pub widen_to_full : ℕ → Opnd → Bool → Mode → Emitted
widen_to_full r opnd2 is_signed rm_w =
    (0x0F ∷ (widen_opcode is_signed + 1) ∷ []) then_emit rm_opnd_inst opnd2 r rm_w
widen_to_full r opnd2 is_signed rm_b =
    (0x0F ∷ widen_opcode is_signed ∷ []) then_emit rm_opnd_inst opnd2 r rm_b
widen_to_full r opnd2 is_signed _ = fault assert_failed

unfoldable pub widen_to_half : ℕ → Opnd → Bool → Mode → Emitted
widen_to_half r opnd2 is_signed rm_b =
    (opnd_size_prefix ∷ 0x0F ∷ widen_opcode is_signed ∷ []) then_emit rm_opnd_inst opnd2 r rm_b
widen_to_half r opnd2 is_signed _ = fault assert_failed

unfoldable pub prefix : ℕ → List ℕ
prefix p = p % 256 ∷ []

unfoldable pub nop : List ℕ
nop = 0x90 ∷ []
