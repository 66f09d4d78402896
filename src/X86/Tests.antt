-- ===== src/X86/Tests.antt =====
-- Concrete instructions of the emitter (korp_src/ia32_jit/x86.cpp).
use mini_jvm.Common.{
  ℕ, ◌+◌, ◌*◌, ◌%◌, ◌^◌, ◌<◌, ◌≡◌, ◌≢◌, refl, List, [], ◌∷◌, ◌++◌, arith, some, ok, fault,
  null_pointer,
}
use mini_jvm.X86.{
  target, rm_d, is_base_disp, is_default, Mem, Opnd, num, mem_at, value, bytes_d, fits_disp8,
  modrm_byte, esp_sib, mem_inst, ebp_reg,
}
use mini_jvm.X86.Emit.{binalu, mov}
use mini_jvm.X86.Control.{call, branch, jump}
use mini_jvm.X86.Decode.{register, memory, decode}
use mini_jvm.X86.Memory.{IsMem, address_of, mem_inst-decodes, mem_inst-absolute}
use mini_jvm.X86.Instructions.{
  IsOpnd, operand_of, with_reg, with_imm, binalu-decodes, binalu-imm-decodes, mov-reg-decodes,
  target-lands,
}

-- `[ebp-8]`
abbrev local : Mem
local = record { kind = is_base_disp; base = 5; index = 0; scale = 0; disp = 0xfffffff8 }

local-IsMem : IsMem local
local-IsMem = record {
  base_lt = omega arith;
  index_lt = omega arith;
  index_ne = λ e. absurd (omega (arith, e));
  scale_lt = omega arith;
  disp_lt = omega arith;
}

local_kind : local.kind ≢ is_default
local_kind e = cc

-- `[0x08049000]`
abbrev global : Mem
global = record { kind = is_default; base = 0; index = 0; scale = 0; disp = 0x08049000 }

global-IsMem : IsMem global
global-IsMem = record {
  base_lt = omega arith;
  index_lt = omega arith;
  index_ne = λ e. absurd (omega (arith, e));
  scale_lt = omega arith;
  disp_lt = omega arith;
}

mem_local : mem_inst local 3 ≡ 0x5d ∷ 0xf8 ∷ []
unfolding mem_inst fits_disp8 modrm_byte esp_sib
mem_local = refl

mem_inst-decodes_example :
    decode (mem_inst local 3 ++ 0x90 ∷ []) ≡ some (3, memory (address_of local), 0x90 ∷ [])
mem_inst-decodes_example = mem_inst-decodes local 3 (0x90 ∷ []) local-IsMem (omega arith) local_kind

mem_inst-absolute_example :
    decode (mem_inst global 3 ++ []) ≡ some (3, register ebp_reg, bytes_d 0x08049000 ++ [])
mem_inst-absolute_example = mem_inst-absolute global 3 [] global-IsMem (omega arith) refl

abbrev slot : Opnd
slot = mem_at 0x1000 local

slot-IsOpnd : IsOpnd slot
slot-IsOpnd = (local-IsMem, local_kind, λ e. absurd (omega (arith, e)))

-- `sub [ebp-8], ecx`, and `sub edx, [ebp-8]`.
binalu-decodes_example :
    (bs : List ℕ) × (cs : List ℕ) × (binalu 5 slot (num 1) (with_reg slot) ≡ ok ((8 * 5 + 1) ∷ bs))
    × (decode (bs ++ []) ≡ some (1, operand_of slot, []))
    × (binalu 5 (num 2) (mem_at 0x1000 local) rm_d ≡ ok ((8 * 5 + 3) ∷ cs))
    × (decode (cs ++ []) ≡ some (2, memory (address_of local), []))
binalu-decodes_example =
    binalu-decodes 5 2 1 0x1000 slot local [] (omega arith) (omega arith) (omega arith) slot-IsOpnd
      slot-IsOpnd

-- `cmp [ebp-8], 7`
binalu-imm-decodes_example :
    (value slot ≡ 0 → binalu 7 slot (num 7) (with_imm slot) ≡ ok ((8 * 7 + 5) ∷ bytes_d 7))
    × (value slot ≢ 0
        → (bs : List ℕ) × (binalu 7 slot (num 7) (with_imm slot) ≡ ok (0x81 ∷ bs))
          × (decode (bs ++ []) ≡ some (7, operand_of slot, bytes_d 7 ++ [])))
binalu-imm-decodes_example = binalu-imm-decodes 7 7 slot [] (omega arith) slot-IsOpnd

abbrev eax : ℕ
eax = 0

-- `mov ecx, eax`
mov-reg-decodes_example :
    (eax ≢ 0
      → (bs : List ℕ) × (mov (num 1) (num eax) (with_reg (num 1)) ≡ ok (0x89 ∷ bs))
        × (decode (bs ++ []) ≡ some (eax, operand_of (num 1), [])))
    × (eax ≡ 0
        → (r : ℕ) → num 1 ≡ num r
        → mov (num 1) (num eax) (with_reg (num 1)) ≡ fault null_pointer)
mov-reg-decodes_example = mov-reg-decodes (num 1) eax [] (omega arith) (omega arith)

-- Backwards, from 0x2000 to 0x1000.
target-lands_example :
    ((rel : ℕ) × (rel < 2 ^ 32)
      × (jump 0x2000 (num 0x1000) target ≡ ok (0xE9 ∷ bytes_d rel))
      × ((0x2000 + 5 + rel) % 2 ^ 32 ≡ 0x1000))
    × ((rel : ℕ) × (rel < 2 ^ 32)
        × (call 0x2000 (num 0x1000) target ≡ ok (0xE8 ∷ bytes_d rel))
        × ((0x2000 + 5 + rel) % 2 ^ 32 ≡ 0x1000))
    × ((rel : ℕ) × (rel < 2 ^ 32)
        × (branch 0x2000 0x74 0x1000 target ≡ ok (0x0F ∷ (0x74 + 0x10) ∷ bytes_d rel))
        × ((0x2000 + 6 + rel) % 2 ^ 32 ≡ 0x1000))
target-lands_example = target-lands 0x2000 0x1000 0x74 (omega arith) (omega arith) (omega arith)
