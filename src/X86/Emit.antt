-- ===== src/X86/Emit.antt =====
-- The instruction emitters (korp_src/ia32_jit/x86.cpp). The cases of a `switch` that fall through
-- are written out; a mode without a case runs into the `assert(0)`.
use mini_jvm.Common.{
  ℕ, zero, suc, ◌+◌, ◌*◌, ◌%◌, List, [], ◌∷◌, ◌++◌, Bool, true, false, ◌==◌, if◌then◌else◌, Run, ok,
  fault, assert_failed, ◌>>=◌,
}
use mini_jvm.X86.{
  Mode, i_d, i_b, r_d, r_w, r_b, m_d, m_w, m_b, rr_d, rr_w, rr_b, ri_d, ri_w, ri_b, mr_d, mr_w,
  mr_b, rm_d, rm_w, rm_b, mi_d, mi_w, mi_b, rri_d, rri_w, rmi_d, rmi_w, rrr_d, rrr_w, rrm_d, rrm_w,
  is_default, Opnd, value, pointee, mem_inst, reg_inst, imm_opnd_inst, modrm_byte,
}

abbrev pub Emitted : Type 0
Emitted = Run (List ℕ)

abbrev pub opnd_size_prefix : ℕ
opnd_size_prefix = 0x66

abbrev pub addr_mode_prefix : ℕ
addr_mode_prefix = 0x67

-- `*buf++ = b`, and the rest of the function.
infixr 6 ◌then_emit◌
abbrev pub ◌then_emit◌ : List ℕ → Emitted → Emitted
bs then_emit e = e >>= λ r. ok (bs ++ r)

abbrev reg_opnd : Opnd → ℕ → Emitted
reg_opnd opnd regop = ok (reg_inst (value opnd) regop)

abbrev pub mem_opnd_inst : Opnd → ℕ → Emitted
mem_opnd_inst opnd regop = do mem ← pointee opnd; ok (mem_inst mem regop)

unfoldable pub rm_opnd_inst : Opnd → ℕ → Mode → Emitted
rm_opnd_inst opnd regop r_w = reg_opnd opnd regop
rm_opnd_inst opnd regop r_d = reg_opnd opnd regop
rm_opnd_inst opnd regop r_b = reg_opnd opnd regop
rm_opnd_inst opnd regop rri_w = reg_opnd opnd regop
rm_opnd_inst opnd regop rri_d = reg_opnd opnd regop
rm_opnd_inst opnd regop rr_w = reg_opnd opnd regop
rm_opnd_inst opnd regop rr_d = reg_opnd opnd regop
rm_opnd_inst opnd regop rr_b = reg_opnd opnd regop
rm_opnd_inst opnd regop rrr_w = reg_opnd opnd regop
rm_opnd_inst opnd regop rrr_d = reg_opnd opnd regop
rm_opnd_inst opnd regop ri_w = reg_opnd opnd regop
rm_opnd_inst opnd regop ri_d = reg_opnd opnd regop
rm_opnd_inst opnd regop ri_b = reg_opnd opnd regop
rm_opnd_inst opnd regop m_w = mem_opnd_inst opnd regop
rm_opnd_inst opnd regop m_d = mem_opnd_inst opnd regop
rm_opnd_inst opnd regop m_b = mem_opnd_inst opnd regop
rm_opnd_inst opnd regop rmi_w = mem_opnd_inst opnd regop
rm_opnd_inst opnd regop rmi_d = mem_opnd_inst opnd regop
rm_opnd_inst opnd regop mr_w = mem_opnd_inst opnd regop
rm_opnd_inst opnd regop mr_d = mem_opnd_inst opnd regop
rm_opnd_inst opnd regop mr_b = mem_opnd_inst opnd regop
rm_opnd_inst opnd regop rrm_w = mem_opnd_inst opnd regop
rm_opnd_inst opnd regop rrm_d = mem_opnd_inst opnd regop
rm_opnd_inst opnd regop mi_w = mem_opnd_inst opnd regop
rm_opnd_inst opnd regop mi_d = mem_opnd_inst opnd regop
rm_opnd_inst opnd regop mi_b = mem_opnd_inst opnd regop
rm_opnd_inst opnd regop rm_b = mem_opnd_inst opnd regop
rm_opnd_inst opnd regop rm_w = mem_opnd_inst opnd regop
rm_opnd_inst opnd regop _ = fault assert_failed

pub record Binalu : Type 0 where
  pub mod_opcode : ℕ
  pub mr_b_bits : ℕ
  pub mr_d_bits : ℕ
  pub rm_b_bits : ℕ
  pub rm_d_bits : ℕ
  pub al_bits : ℕ
  pub eax_bits : ℕ

-- `alu_op[i]` after `x86_init`: the first entry is written out, the others are computed from it.
abbrev pub first_alu : Binalu
first_alu = record {
  mod_opcode = 0;
  mr_b_bits = 0;
  mr_d_bits = 1;
  rm_b_bits = 2;
  rm_d_bits = 3;
  al_bits = 4;
  eax_bits = 5;
}

unfoldable pub alu_op : ℕ → Binalu
alu_op zero = first_alu
alu_op (suc k) =
    let first = first_alu in
    let inc : ℕ = 8 * suc k % 256 in
    record {
      mod_opcode = suc k;
      mr_b_bits = (first.mr_b_bits + inc) % 256;
      mr_d_bits = (first.mr_d_bits + inc) % 256;
      rm_b_bits = (first.rm_b_bits + inc) % 256;
      rm_d_bits = (first.rm_d_bits + inc) % 256;
      al_bits = (first.al_bits + inc) % 256;
      eax_bits = (first.eax_bits + inc) % 256;
    }

module _ (alu : Binalu) (opnd1 opnd2 : Opnd) where
  abbrev alu_reg_mem : ℕ → Emitted
  alu_reg_mem bits = (bits ∷ []) then_emit mem_opnd_inst opnd2 (value opnd1 % 256)

  abbrev alu_rm_reg : ℕ → Mode → Emitted
  alu_rm_reg bits mode = (bits ∷ []) then_emit rm_opnd_inst opnd1 (value opnd2 % 256) mode

  abbrev alu_rm_imm : ℕ → ℕ → Mode → Emitted
  alu_rm_imm short bits mode = do
    head ←
        (if value opnd1 == 0
          then ok (short ∷ [])
          else (bits ∷ []) then_emit rm_opnd_inst opnd1 alu.mod_opcode mode)
    head then_emit imm_opnd_inst (value opnd2) mode

  abbrev opnd_size : Emitted → Emitted
  opnd_size e = (opnd_size_prefix ∷ []) then_emit e

  unfoldable pub binalu_inst : Mode → Emitted
  binalu_inst rm_w = opnd_size (alu_reg_mem alu.rm_d_bits)
  binalu_inst rm_d = alu_reg_mem alu.rm_d_bits
  binalu_inst rm_b = alu_reg_mem alu.rm_b_bits
  binalu_inst mr_w = opnd_size (alu_rm_reg alu.mr_d_bits mr_w)
  binalu_inst rr_w = opnd_size (alu_rm_reg alu.mr_d_bits rr_w)
  binalu_inst mr_d = alu_rm_reg alu.mr_d_bits mr_d
  binalu_inst rr_d = alu_rm_reg alu.mr_d_bits rr_d
  binalu_inst mr_b = alu_rm_reg alu.mr_b_bits mr_b
  binalu_inst rr_b = alu_rm_reg alu.mr_b_bits rr_b
  binalu_inst mi_w = opnd_size (alu_rm_imm alu.eax_bits 0x81 mi_w)
  binalu_inst ri_w = opnd_size (alu_rm_imm alu.eax_bits 0x81 ri_w)
  binalu_inst mi_d = alu_rm_imm alu.eax_bits 0x81 mi_d
  binalu_inst ri_d = alu_rm_imm alu.eax_bits 0x81 ri_d
  binalu_inst mi_b = alu_rm_imm alu.al_bits 0x80 mi_b
  binalu_inst ri_b = alu_rm_imm alu.al_bits 0x80 ri_b
  binalu_inst _ = fault assert_failed

-- `binalu( buf, kind, ...)`: the kinds are numbered op_add=0, op_or, op_adc, op_sbb, op_and,
-- op_sub, op_xor, op_cmp.
unfoldable pub binalu : ℕ → Opnd → Opnd → Mode → Emitted
unfolding binalu_inst alu_op
binalu alukind opnd1 opnd2 mode = binalu_inst (alu_op alukind) opnd1 opnd2 mode

pub data UnialuKind : Type 0 where
  op_inc op_dec op_not op_neg : UnialuKind

-- The tables `alu_inc`, `alu_dec`, `alu_not` and `alu_neg`.
pub record Unialu : Type 0 where
  pub mod_opcode : ℕ
  pub b_bits : ℕ
  pub d_bits : ℕ
  pub r_bits : ℕ
  pub is_inc_dec : Bool

unfoldable pub unialu_op : UnialuKind → Unialu
unialu_op op_inc = record {
  mod_opcode = 0;
  b_bits = 0xFE;
  d_bits = 0xFF;
  r_bits = 0x40;
  is_inc_dec = true;
}
unialu_op op_dec = record {
  mod_opcode = 1;
  b_bits = 0xFE;
  d_bits = 0xFF;
  r_bits = 0x48;
  is_inc_dec = true;
}
unialu_op op_not = record {
  mod_opcode = 2;
  b_bits = 0xF6;
  d_bits = 0xF7;
  r_bits = 0;
  is_inc_dec = false;
}
unialu_op op_neg = record {
  mod_opcode = 3;
  b_bits = 0xF6;
  d_bits = 0xF7;
  r_bits = 0;
  is_inc_dec = false;
}

-- The second `switch` of `unialu_inst`.
unialu_general : Unialu → Opnd → Mode → Emitted
unialu_general alu opnd1 r_w =
    (opnd_size_prefix ∷ alu.d_bits ∷ []) then_emit rm_opnd_inst opnd1 alu.mod_opcode r_w
unialu_general alu opnd1 m_w =
    (opnd_size_prefix ∷ alu.d_bits ∷ []) then_emit rm_opnd_inst opnd1 alu.mod_opcode m_w
unialu_general alu opnd1 r_d = (alu.d_bits ∷ []) then_emit rm_opnd_inst opnd1 alu.mod_opcode r_d
unialu_general alu opnd1 m_d = (alu.d_bits ∷ []) then_emit rm_opnd_inst opnd1 alu.mod_opcode m_d
unialu_general alu opnd1 r_b = (alu.b_bits ∷ []) then_emit rm_opnd_inst opnd1 alu.mod_opcode r_b
unialu_general alu opnd1 m_b = (alu.b_bits ∷ []) then_emit rm_opnd_inst opnd1 alu.mod_opcode m_b
unialu_general alu opnd1 _ = fault assert_failed

-- The first one, for op_inc and op_dec alone; what it has no case for goes on to the second.
unialu_inc_dec : Unialu → Opnd → Mode → Emitted
unfolding unialu_general
unialu_inc_dec alu opnd1 r_w = ok (opnd_size_prefix ∷ (alu.r_bits + value opnd1 % 256) % 256 ∷ [])
unialu_inc_dec alu opnd1 r_d = ok ((alu.r_bits + value opnd1 % 256) % 256 ∷ [])
unialu_inc_dec alu opnd1 r_b = ok (alu.b_bits ∷ modrm_byte 3 alu.mod_opcode (value opnd1) ∷ [])
unialu_inc_dec alu opnd1 mode = unialu_general alu opnd1 mode

unfoldable pub unialu : UnialuKind → Opnd → Mode → Emitted
unfolding unialu_inc_dec unialu_general unialu_op
unialu alukind opnd1 mode =
    let alu = unialu_op alukind in
    if alu.is_inc_dec then unialu_inc_dec alu opnd1 mode else unialu_general alu opnd1 mode

-- A move through the short form for eax or al, if the memory operand is an absolute address.
abbrev moffs_or : ℕ → Opnd → Emitted → Emitted
moffs_or opcode opnd other = do
  mem ← pointee opnd
  elim mem.kind [ is_default ↦ (opcode ∷ []) then_emit imm_opnd_inst mem.disp i_d | _ ↦ other ]

module _ (opnd1 opnd2 : Opnd) where
  -- reg <- imm
  abbrev mov_reg_imm : ℕ → Mode → Emitted
  mov_reg_imm opcode mode =
      ((opcode + value opnd1 % 8) ∷ []) then_emit imm_opnd_inst (value opnd2) mode

  -- reg <- mem
  abbrev mov_reg_mem : ℕ → ℕ → Emitted
  mov_reg_mem short opcode =
      let general = (opcode ∷ []) then_emit mem_opnd_inst opnd2 (value opnd1 % 256) in
      if value opnd1 == 0 then moffs_or short opnd2 general else general

  -- rm <- reg, with what stands between the test for eax and the test of the operand
  abbrev mov_rm_reg : List ℕ → ℕ → ℕ → Mode → Emitted
  mov_rm_reg before short opcode mode =
      let general = (opcode ∷ []) then_emit rm_opnd_inst opnd1 (value opnd2 % 256) mode in
      if value opnd2 == 0 then before then_emit moffs_or short opnd1 general else general

  -- mem <- imm
  abbrev mov_mem_imm : ℕ → Mode → Emitted
  mov_mem_imm opcode mode = do
    bytes ← mem_opnd_inst opnd1 0
    imm ← imm_opnd_inst (value opnd2) mode
    ok (opcode ∷ (bytes ++ imm))

  unfoldable pub mov : Mode → Emitted
  mov ri_w = (opnd_size_prefix ∷ []) then_emit mov_reg_imm 0xb8 ri_w
  mov ri_d = mov_reg_imm 0xb8 ri_d
  mov ri_b = mov_reg_imm 0xb0 ri_b
  mov rm_w = (opnd_size_prefix ∷ []) then_emit mov_reg_mem 0xa1 0x8b
  mov rm_d = mov_reg_mem 0xa1 0x8b
  mov rm_b = mov_reg_mem 0xa0 0x8a
  mov mi_w = (opnd_size_prefix ∷ []) then_emit mov_mem_imm 0xc7 mi_w
  mov mi_d = mov_mem_imm 0xc7 mi_d
  mov mi_b = mov_mem_imm 0xc6 i_b
  mov mr_w = (opnd_size_prefix ∷ []) then_emit mov_rm_reg (addr_mode_prefix ∷ []) 0xa3 0x89 mr_w
  mov rr_w = (opnd_size_prefix ∷ []) then_emit mov_rm_reg [] 0xa3 0x89 rr_w
  mov mr_d = mov_rm_reg [] 0xa3 0x89 mr_d
  mov rr_d = mov_rm_reg [] 0xa3 0x89 rr_d
  mov mr_b = mov_rm_reg [] 0xa2 0x88 mr_b
  mov rr_b = mov_rm_reg [] 0xa2 0x88 rr_b
  mov _ = ok []
