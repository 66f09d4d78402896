-- ===== src/X86.antt =====
-- The IA-32 code emitter (korp_src/ia32_jit/x86.h and x86.cpp): operands, ModR/M and SIB bytes. An
-- emitter gets a pointer to the code buffer and returns it behind what it wrote: here it returns
-- the list of the bytes. An `uint32` operand is a number, or the address of a memory operand with
-- what stands there.
pub mod Emit
pub mod Decode
pub mod Fields
pub mod Memory
pub mod Control
pub mod Instructions
mod Tests
use mini_jvm.Common.{
  ℕ, ◌+◌, ◌*◌, ◌-◌, ◌/◌, ◌%◌, ◌^◌, List, [], ◌∷◌, ◌++◌, Bool, ◌||◌, ltb, leb, ◌==◌, if◌then◌else◌,
  Run, ok, fault, assert_failed, null_pointer, ◌>>=◌, low_bits, bit_or,
}

pub data Mode : Type 0 where
  target i_d i_w i_b r_d r_w r_b m_d m_w m_b rr_d rr_w rr_b ri_d ri_w ri_b mr_d mr_w mr_b : Mode
  rm_d rm_w rm_b mi_d mi_w mi_b rri_d rri_w rmi_d rmi_w rrr_d rrr_w rrm_d rrm_w : Mode

-- The values that the macros IS_BASE, IS_SIB, IS_BASE_DISP, IS_SIB_DISP and IS_DEFAULT name.
pub data MemKind : Type 0 where
  is_base is_sib is_base_disp is_sib_disp is_default : MemKind

-- `disp` is the bit pattern of the `int32`.
pub record Mem : Type 0 where
  pub kind : MemKind
  pub base : ℕ
  pub index : ℕ
  pub scale : ℕ
  pub disp : ℕ

pub data Opnd : Type 0 where
  num : ℕ → Opnd
  mem_at : ℕ → Mem → Opnd

-- The `uint32` itself.
abbrev pub value : Opnd → ℕ
value (num n) = n
value (mem_at a m) = a

-- `(korp_ia32_mem*)opnd`, read: a register number is no address of an object.
abbrev pub pointee : Opnd → Run Mem
pointee (num n) = fault null_pointer
pointee (mem_at a m) = ok m

abbrev pub esp_reg : ℕ
esp_reg = 4

abbrev pub ebp_reg : ℕ
ebp_reg = 5

unfoldable pub sib_byte : ℕ → ℕ → ℕ → ℕ
sib_byte scale index base =
    bit_or (bit_or (low_bits scale 2 * 2 ^ 6) (low_bits index 3 * 2 ^ 3)) (low_bits base 3)

unfoldable pub modrm_byte : ℕ → ℕ → ℕ → ℕ
modrm_byte mod_ regop rm =
    bit_or (bit_or (low_bits mod_ 2 * 2 ^ 6) (low_bits regop 3 * 2 ^ 3)) (low_bits rm 3)

-- The little-endian stores through a `uint16*` and a `uint32*`.
unfoldable pub bytes_w : ℕ → List ℕ
bytes_w w = w % 256 ∷ w / 256 % 256 ∷ []

unfoldable pub bytes_d : ℕ → List ℕ
bytes_d w = w % 256 ∷ w / 2 ^ 8 % 256 ∷ w / 2 ^ 16 % 256 ∷ w / 2 ^ 24 % 256 ∷ []

unfoldable pub imm_opnd_inst : ℕ → Mode → Run (List ℕ)
unfolding bytes_w bytes_d
imm_opnd_inst opnd r_b = ok (opnd % 256 ∷ [])
imm_opnd_inst opnd rr_b = ok (opnd % 256 ∷ [])
imm_opnd_inst opnd ri_b = ok (opnd % 256 ∷ [])
imm_opnd_inst opnd m_b = ok (opnd % 256 ∷ [])
imm_opnd_inst opnd mr_b = ok (opnd % 256 ∷ [])
imm_opnd_inst opnd mi_b = ok (opnd % 256 ∷ [])
imm_opnd_inst opnd i_b = ok (opnd % 256 ∷ [])
imm_opnd_inst opnd r_d = ok (bytes_d opnd)
imm_opnd_inst opnd rr_d = ok (bytes_d opnd)
imm_opnd_inst opnd ri_d = ok (bytes_d opnd)
imm_opnd_inst opnd m_d = ok (bytes_d opnd)
imm_opnd_inst opnd mr_d = ok (bytes_d opnd)
imm_opnd_inst opnd mi_d = ok (bytes_d opnd)
imm_opnd_inst opnd rri_d = ok (bytes_d opnd)
imm_opnd_inst opnd rrr_d = ok (bytes_d opnd)
imm_opnd_inst opnd rmi_d = ok (bytes_d opnd)
imm_opnd_inst opnd rrm_d = ok (bytes_d opnd)
imm_opnd_inst opnd i_d = ok (bytes_d opnd)
imm_opnd_inst opnd r_w = ok (bytes_w opnd)
imm_opnd_inst opnd rr_w = ok (bytes_w opnd)
imm_opnd_inst opnd ri_w = ok (bytes_w opnd)
imm_opnd_inst opnd m_w = ok (bytes_w opnd)
imm_opnd_inst opnd mr_w = ok (bytes_w opnd)
imm_opnd_inst opnd mi_w = ok (bytes_w opnd)
imm_opnd_inst opnd rri_w = ok (bytes_w opnd)
imm_opnd_inst opnd i_w = ok (bytes_w opnd)
imm_opnd_inst opnd _ = fault assert_failed

-- `(disp>=-128)&&(disp<=127)` of an `int32` by its bit pattern.
unfoldable pub fits_disp8 : ℕ → Bool
fits_disp8 disp = ltb disp 128 || leb (2 ^ 32 - 128) disp

-- The SIB byte that the register esp as a base wants.
unfoldable pub esp_sib : ℕ → List ℕ
unfolding sib_byte
esp_sib base = if base == esp_reg then sib_byte 0 esp_reg esp_reg ∷ [] else []

mem_inst_kind : MemKind → Mem → ℕ → List ℕ
mem_inst_kind is_base mem regop =
    if mem.base == ebp_reg
    then modrm_byte 1 regop ebp_reg ∷ 0 ∷ []
    else if mem.base == esp_reg
    then modrm_byte 0 regop esp_reg ∷ sib_byte 0 esp_reg esp_reg ∷ []
    else modrm_byte 0 regop mem.base ∷ []
mem_inst_kind is_sib mem regop =
    if mem.base == ebp_reg
    then modrm_byte 1 regop esp_reg ∷ sib_byte mem.scale mem.index mem.base ∷ 0 ∷ []
    else modrm_byte 0 regop esp_reg ∷ sib_byte mem.scale mem.index mem.base ∷ []
mem_inst_kind is_base_disp mem regop =
    if fits_disp8 mem.disp
    then modrm_byte 1 regop mem.base ∷ (esp_sib mem.base ++ mem.disp % 256 ∷ [])
    else modrm_byte 2 regop mem.base ∷ (esp_sib mem.base ++ bytes_d mem.disp)
mem_inst_kind is_sib_disp mem regop =
    if fits_disp8 mem.disp
    then modrm_byte 1 regop esp_reg ∷ sib_byte mem.scale mem.index mem.base ∷ mem.disp % 256 ∷ []
    else modrm_byte 2 regop esp_reg ∷ sib_byte mem.scale mem.index mem.base ∷ bytes_d mem.disp
mem_inst_kind is_default mem regop = modrm_byte 3 regop ebp_reg ∷ bytes_d mem.disp

-- `imm_opnd_inst(buf, mem->disp, i_b)` and `i_d` are written out.
unfoldable pub mem_inst : Mem → ℕ → List ℕ
unfolding mem_inst_kind
mem_inst mem regop = mem_inst_kind mem.kind mem regop

unfoldable pub reg_inst : ℕ → ℕ → List ℕ
reg_inst opnd1 mod_op = modrm_byte 3 mod_op opnd1 ∷ []

-- `mem_base_opnd` and `mem_addr_opnd`
unfoldable pub mem_base_opnd : ℕ → ℕ → Mem
mem_base_opnd reg disp = record {
  kind = is_base_disp;
  base = reg;
  index = 0;
  scale = 0;
  disp = disp;
}

unfoldable pub mem_addr_opnd : ℕ → Mem
mem_addr_opnd disp = record { kind = is_default; base = 0; index = 0; scale = 0; disp = disp }
