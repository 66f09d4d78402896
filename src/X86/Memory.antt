-- ===== src/X86/Memory.antt =====
-- The emitted operand bytes (korp_src/ia32_jit/x86.cpp: `sib_byte`, `modrm_byte`, `mem_inst`,
-- `reg_inst`) against the decoder.
use mini_jvm.Common.{
  ℕ, ◌%◌, ◌^◌, ◌<◌, ◌≡◌, ◌≢◌, refl, List, ◌∷◌, ◌++◌, false, ◌==◌, none, some, arith, Bool-cases,
  ==_iff, inl, inr,
}
use mini_jvm.X86.{
  MemKind, is_base, is_sib, is_base_disp, is_sib_disp, is_default, mem_inst_kind, Mem, bytes_d,
  fits_disp8, esp_sib, mem_inst, reg_inst, esp_reg, ebp_reg,
}
use mini_jvm.X86.Decode.{Address, register, memory, decode, with_disp, disp8, disp32, sign_extend8}
use mini_jvm.X86.Fields.{
  modrm_fields, sib_fields, dword_value, short_value, decode_fields, decode_fields_sib,
}

-- The fields of a memory operand in the ranges that the processor has; esp is no index.
pub record IsMem (m : Mem) : Type 0 where
  pub base_lt : m.base < 8
  pub index_lt : m.index < 8
  pub index_ne : m.index ≢ esp_reg
  pub scale_lt : m.scale < 4
  pub disp_lt : m.disp < 2 ^ 32

-- The address that an operand of each kind is meant to be.
pub address_of_kind : MemKind → Mem → Address
address_of_kind is_base m = record { base = some m.base; index = none; disp = 0 }
address_of_kind is_sib m = record { base = some m.base; index = some (m.index, m.scale); disp = 0 }
address_of_kind is_base_disp m = record { base = some m.base; index = none; disp = m.disp }
address_of_kind is_sib_disp m = record {
  base = some m.base;
  index = some (m.index, m.scale);
  disp = m.disp;
}
address_of_kind is_default m = record { base = none; index = none; disp = m.disp }

pub address_of : Mem → Address
unfolding address_of_kind
address_of m = address_of_kind m.kind m

module _ (m : Mem) (v : IsMem m) (regop : ℕ) (r_lt : regop < 8) (rest : List ℕ) where
  base-decodes :
      decode (mem_inst_kind is_base m regop ++ rest)
      ≡ some (regop, memory (address_of_kind is_base m), rest)
  unfolding mem_inst_kind address_of_kind with_disp disp8 sign_extend8
  base-decodes = elim (Bool-cases (m.base == 5)) [
    | inl e ↦ rw (
      e,
      modrm_fields 1 regop 5 (omega arith) r_lt (omega arith),
      decode_fields 1 regop 5 (0 ∷ rest) (omega arith) r_lt (omega arith) (omega arith)
          (ground arith),
      (==_iff m.base 5).0 e,
    )
    | inr n5 ↦ elim (Bool-cases (m.base == 4)) [
      | inl e ↦ rw (
        n5,
        e,
        modrm_fields 0 regop 4 (omega arith) r_lt (omega arith),
        sib_fields 0 4 4 (omega arith) (omega arith) (omega arith),
        decode_fields_sib 0 regop 0 4 4 rest (omega arith) r_lt (omega arith) (omega arith)
            (omega arith) (ground arith),
        (==_iff m.base 4).0 e,
      )
      | inr n4 ↦ rw (
        n5,
        n4,
        modrm_fields 0 regop m.base (omega arith) r_lt v.base_lt,
        decode_fields 0 regop m.base rest (omega arith) r_lt v.base_lt (ground arith)
            (ground arith),
      )
    ]
  ]

  index_present : (m.index == 4) ≡ false
  index_present = ground (arith, v.index_ne)

  sib-decodes :
      decode (mem_inst_kind is_sib m regop ++ rest)
      ≡ some (regop, memory (address_of_kind is_sib m), rest)
  unfolding mem_inst_kind address_of_kind with_disp disp8 sign_extend8
  sib-decodes = elim (Bool-cases (m.base == 5)) [
    | inl e ↦ rw (
      e,
      modrm_fields 1 regop 4 (omega arith) r_lt (omega arith),
      sib_fields m.scale m.index m.base v.scale_lt v.index_lt v.base_lt,
      decode_fields_sib 1 regop m.scale m.index m.base (0 ∷ rest) (omega arith) r_lt v.scale_lt
          v.index_lt v.base_lt (ground arith),
      index_present,
    )
    | inr n5 ↦ rw (
      n5,
      modrm_fields 0 regop 4 (omega arith) r_lt (omega arith),
      sib_fields m.scale m.index m.base v.scale_lt v.index_lt v.base_lt,
      decode_fields_sib 0 regop m.scale m.index m.base rest (omega arith) r_lt v.scale_lt v.index_lt
          v.base_lt (ground arith),
      index_present,
    )
  ]

  sib_disp-decodes :
      decode (mem_inst_kind is_sib_disp m regop ++ rest)
      ≡ some (regop, memory (address_of_kind is_sib_disp m), rest)
  unfolding mem_inst_kind address_of_kind with_disp disp8 disp32 bytes_d
  sib_disp-decodes = elim (Bool-cases (fits_disp8 m.disp)) [
    | inl e ↦ rw (
      e,
      modrm_fields 1 regop 4 (omega arith) r_lt (omega arith),
      sib_fields m.scale m.index m.base v.scale_lt v.index_lt v.base_lt,
      decode_fields_sib 1 regop m.scale m.index m.base ((m.disp % 256) ∷ rest) (omega arith) r_lt
          v.scale_lt v.index_lt v.base_lt (ground arith),
      index_present,
      short_value m.disp v.disp_lt e,
    )
    | inr e ↦ rw (
      e,
      modrm_fields 2 regop 4 (omega arith) r_lt (omega arith),
      sib_fields m.scale m.index m.base v.scale_lt v.index_lt v.base_lt,
      decode_fields_sib 2 regop m.scale m.index m.base (bytes_d m.disp ++ rest) (omega arith) r_lt
          v.scale_lt v.index_lt v.base_lt (ground arith),
      index_present,
      dword_value m.disp v.disp_lt,
    )
  ]

  base_disp-decodes :
      decode (mem_inst_kind is_base_disp m regop ++ rest)
      ≡ some (regop, memory (address_of_kind is_base_disp m), rest)
  unfolding mem_inst_kind address_of_kind with_disp disp8 disp32 bytes_d esp_sib
  base_disp-decodes = elim (Bool-cases (fits_disp8 m.disp)) [
    | inl e ↦ elim (Bool-cases (m.base == 4)) [
      | inl b ↦ rw (
        e,
        b,
        modrm_fields 1 regop m.base (omega arith) r_lt v.base_lt,
        sib_fields 0 4 4 (omega arith) (omega arith) (omega arith),
        (==_iff m.base 4).0 b,
        decode_fields_sib 1 regop 0 4 4 ((m.disp % 256) ∷ rest) (omega arith) r_lt (omega arith)
            (omega arith) (omega arith) (ground arith),
        short_value m.disp v.disp_lt e,
      )
      | inr b ↦ rw (
        e,
        b,
        modrm_fields 1 regop m.base (omega arith) r_lt v.base_lt,
        decode_fields 1 regop m.base ((m.disp % 256) ∷ rest) (omega arith) r_lt v.base_lt
            (ground arith) (ground arith),
        short_value m.disp v.disp_lt e,
      )
    ]
    | inr e ↦ elim (Bool-cases (m.base == 4)) [
      | inl b ↦ rw (
        e,
        b,
        modrm_fields 2 regop m.base (omega arith) r_lt v.base_lt,
        sib_fields 0 4 4 (omega arith) (omega arith) (omega arith),
        (==_iff m.base 4).0 b,
        decode_fields_sib 2 regop 0 4 4 (bytes_d m.disp ++ rest) (omega arith) r_lt (omega arith)
            (omega arith) (omega arith) (ground arith),
        dword_value m.disp v.disp_lt,
      )
      | inr b ↦ rw (
        e,
        b,
        modrm_fields 2 regop m.base (omega arith) r_lt v.base_lt,
        decode_fields 2 regop m.base (bytes_d m.disp ++ rest) (omega arith) r_lt v.base_lt
            (ground arith) (ground arith),
        dword_value m.disp v.disp_lt,
      )
    ]
  ]

  default-decodes :
      decode (mem_inst_kind is_default m regop ++ rest)
      ≡ some (regop, register ebp_reg, bytes_d m.disp ++ rest)
  unfolding mem_inst_kind decode bytes_d
  default-decodes = rw (modrm_fields 3 regop 5 (omega arith) r_lt (omega arith)) (ground arith)

kind_decodes :
    (k : MemKind) (m : Mem)
    → IsMem m
    → (regop : ℕ) → regop < 8
    → (rest : List ℕ) → k ≢ is_default
    → decode (mem_inst_kind k m regop ++ rest) ≡ some (regop, memory (address_of_kind k m), rest)
kind_decodes is_base m v r h rest n = base-decodes m v r h rest
kind_decodes is_sib m v r h rest n = sib-decodes m v r h rest
kind_decodes is_base_disp m v r h rest n = base_disp-decodes m v r h rest
kind_decodes is_sib_disp m v r h rest n = sib_disp-decodes m v r h rest
kind_decodes is_default m v r h rest n = absurd (n refl)

-- The bytes of `mem_inst` read back as the register field, the address that the operand is meant to
-- be and nothing more, for every operand in range with a base register and every register field
-- below 8: also where the base is esp or ebp, and for short and long displacements of either sign.
pub mem_inst-decodes :
    (m : Mem) (regop : ℕ) (rest : List ℕ)
    → IsMem m
    → regop < 8
    → m.kind ≢ is_default
    → decode (mem_inst m regop ++ rest) ≡ some (regop, memory (address_of m), rest)
unfolding mem_inst address_of
mem_inst-decodes m regop rest v h n = kind_decodes m.kind m v regop h rest n

-- An operand in range that is an absolute address is emitted with the mod field 3: the processor
-- reads the register ebp in its place, and takes the address for further instructions.
pub mem_inst-absolute :
    (m : Mem) (regop : ℕ) (rest : List ℕ)
    → IsMem m
    → regop < 8
    → m.kind ≡ is_default
    → decode (mem_inst m regop ++ rest) ≡ some (regop, register ebp_reg, bytes_d m.disp ++ rest)
unfolding mem_inst
mem_inst-absolute m regop rest v h e = rw e (default-decodes m v regop h rest)

-- The bytes of `reg_inst` for two of the eight registers read back as both register fields.
pub reg_inst-decodes :
    (opnd1 mod_op : ℕ) (rest : List ℕ)
    → opnd1 < 8
    → mod_op < 8
    → decode (reg_inst opnd1 mod_op ++ rest) ≡ some (mod_op, register opnd1, rest)
unfolding reg_inst decode
reg_inst-decodes o r rest ho hr = rw (modrm_fields 3 r o (omega arith) hr ho) (ground arith)
