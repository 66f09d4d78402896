-- ===== src/X86/Instructions.antt =====
-- Whole instructions (korp_src/ia32_jit/x86.cpp): the opcode and the operands that a processor
-- reads back from what `binalu`, `mov`, `jump`, `call` and `branch` emit.
use mini_jvm.Common.{
  ℕ, zero, suc, ◌+◌, ◌*◌, ◌%◌, ◌^◌, ◌<◌, ◌≡◌, ◌≢◌, refl, List, ◌∷◌, ◌++◌, ◌==◌, if◌then◌else◌, some,
  ok, fault, null_pointer, arith, append_assoc, Bool-cases, ==_iff, ne→==, inl, inr,
}
use mini_jvm.X86.{
  Mode, target, rr_d, mr_d, rm_d, ri_d, mi_d, is_default, Mem, Opnd, num, mem_at, value,
  imm_opnd_inst, bytes_d, mem_inst, reg_inst,
}
use mini_jvm.X86.Decode.{Operand, register, memory, decode}
use mini_jvm.X86.Memory.{IsMem, address_of, mem_inst-decodes, reg_inst-decodes}
use mini_jvm.X86.Emit.{rm_opnd_inst, binalu_inst, alu_op, binalu, mov}
use mini_jvm.X86.Control.{relative, jump, call, branch}

-- What an operand is meant to be, and when it is one: a register, or a memory operand with a base
-- that stands at an address of its own.
abbrev pub operand_of : Opnd → Operand
operand_of (num r) = register r
operand_of (mem_at a m) = memory (address_of m)

abbrev pub IsOpnd : Opnd → Type 0
IsOpnd (num r) = r < 8
IsOpnd (mem_at a m) = IsMem m × (m.kind ≢ is_default) × (a ≢ 0)

-- The 32-bit modes for an operand and a register, and for an operand and an immediate.
abbrev pub with_reg : Opnd → Mode
with_reg (num r) = rr_d
with_reg (mem_at a m) = mr_d

abbrev pub with_imm : Opnd → Mode
with_imm (num r) = ri_d
with_imm (mem_at a m) = mi_d

-- The bytes of an operand, whichever it is.
abbrev rm_bytes : Opnd → ℕ → List ℕ
rm_bytes (num r) regop = reg_inst r regop
rm_bytes (mem_at a m) regop = mem_inst m regop

rm_bytes-decodes :
    (o : Opnd) (regop : ℕ) (rest : List ℕ)
    → IsOpnd o
    → regop < 8
    → decode (rm_bytes o regop ++ rest) ≡ some (regop, operand_of o, rest)
rm_bytes-decodes (num r) regop rest v h = reg_inst-decodes r regop rest v h
rm_bytes-decodes (mem_at a m) regop rest (v, n, _) h = mem_inst-decodes m regop rest v h n

alu_bits :
    (k : ℕ)
    → k < 8
    → ((alu_op k).mod_opcode ≡ k)
      × ((alu_op k).mr_d_bits ≡ 8 * k + 1)
      × ((alu_op k).rm_d_bits ≡ 8 * k + 3)
      × ((alu_op k).eax_bits ≡ 8 * k + 5)
unfolding alu_op
alu_bits zero h = omega arith
alu_bits (suc k) h = omega arith

binalu-reg_lem :
    (k : ℕ) (o : Opnd) (b : ℕ)
    → k < 8
    → b < 8
    → binalu k o (num b) (with_reg o) ≡ ok ((8 * k + 1) ∷ rm_bytes o b)
unfolding binalu binalu_inst rm_opnd_inst
binalu-reg_lem k (num r) b hk hb = let e : b % 256 ≡ b = omega arith in rw ((alu_bits k hk).1, e)
binalu-reg_lem k (mem_at a m) b hk hb =
    let e : b % 256 ≡ b = omega arith in rw ((alu_bits k hk).1, e)

binalu-load_lem :
    (k a p : ℕ) (m : Mem)
    → k < 8
    → a < 8
    → binalu k (num a) (mem_at p m) rm_d ≡ ok ((8 * k + 3) ∷ mem_inst m a)
unfolding binalu binalu_inst
binalu-load_lem k a p m hk ha = let e : a % 256 ≡ a = omega arith in rw ((alu_bits k hk).2, e)

binalu-imm_lem :
    (k : ℕ) (o : Opnd) (w : ℕ)
    → k < 8
    → binalu k o (num w) (with_imm o)
      ≡ ok (if value o == 0 then (8 * k + 5) ∷ bytes_d w else 0x81 ∷ (rm_bytes o k ++ bytes_d w))
unfolding binalu binalu_inst rm_opnd_inst imm_opnd_inst
binalu-imm_lem k (num r) w hk = elim (Bool-cases (r == 0)) [
  | inl e ↦ rw (e, (alu_bits k hk).3)
  | inr e ↦ rw (e, (alu_bits k hk).0)
]
binalu-imm_lem k (mem_at a m) w hk = elim (Bool-cases (a == 0)) [
  | inl e ↦ rw (e, (alu_bits k hk).3)
  | inr e ↦ rw (e, (alu_bits k hk).0)
]

-- For one of the eight kinds and registers, and operands in range with a base, a 32-bit ALU
-- instruction is emitted as the opcode of that kind and direction, and the processor reads the
-- operands back: a register into a register or memory operand, and a memory operand into a
-- register.
pub binalu-decodes :
    (k a b p : ℕ) (o : Opnd) (m : Mem) (rest : List ℕ)
    → k < 8
    → a < 8
    → b < 8
    → IsOpnd o
    → IsOpnd (mem_at p m)
    → (bs : List ℕ) × (cs : List ℕ) × (binalu k o (num b) (with_reg o) ≡ ok ((8 * k + 1) ∷ bs))
      × (decode (bs ++ rest) ≡ some (b, operand_of o, rest))
      × (binalu k (num a) (mem_at p m) rm_d ≡ ok ((8 * k + 3) ∷ cs))
      × (decode (cs ++ rest) ≡ some (a, memory (address_of m), rest))
binalu-decodes k a b p o m rest hk ha hb vo (vm, n, _) = (
  rm_bytes o b,
  mem_inst m a,
  binalu-reg_lem k o b hk hb,
  rm_bytes-decodes o b rest vo hb,
  binalu-load_lem k a p m hk ha,
  mem_inst-decodes m a rest vm ha n,
)

-- For one of the eight kinds and an operand in range, with an immediate the kind stands in the
-- register field behind the opcode 0x81, and the four bytes of the immediate follow the operand;
-- for eax there is the short form, the opcode and the immediate.
pub binalu-imm-decodes :
    (k w : ℕ) (o : Opnd) (rest : List ℕ)
    → k < 8
    → IsOpnd o
    → (value o ≡ 0 → binalu k o (num w) (with_imm o) ≡ ok ((8 * k + 5) ∷ bytes_d w))
      × (value o ≢ 0
          → (bs : List ℕ) × (binalu k o (num w) (with_imm o) ≡ ok (0x81 ∷ bs))
            × (decode (bs ++ rest) ≡ some (k, operand_of o, bytes_d w ++ rest)))
binalu-imm-decodes k w o rest hk v = (
  λ e. rw ((==_iff (value o) 0).1 e) at (binalu-imm_lem k o w hk),
  λ n. (
    rm_bytes o k ++ bytes_d w,
    rw (ne→== (value o) 0 n) at (binalu-imm_lem k o w hk),
    rw append_assoc (rm_bytes-decodes o k (bytes_d w ++ rest) v hk),
  ),
)

mov_other :
    (o : Opnd) (c : ℕ) → c < 8 → c ≢ 0 → mov o (num c) (with_reg o) ≡ ok (0x89 ∷ rm_bytes o c)
unfolding mov rm_opnd_inst
mov_other (num r) c hc n = let e : c % 256 ≡ c = omega arith in rw (ne→== c 0 n, e)
mov_other (mem_at a m) c hc n = let e : c % 256 ≡ c = omega arith in rw (ne→== c 0 n, e)

mov_eax : (r : ℕ) → mov (num r) (num 0) rr_d ≡ fault null_pointer
unfolding mov
mov_eax r = refl

-- A move from one of the eight registers to an operand in range: from any but eax it reads back as
-- the store of that register; from eax into a register the emitter takes the number of the register
-- for the address of an operand.
pub mov-reg-decodes :
    (o : Opnd) (b : ℕ) (rest : List ℕ)
    → IsOpnd o
    → b < 8
    → (b ≢ 0
        → (bs : List ℕ) × (mov o (num b) (with_reg o) ≡ ok (0x89 ∷ bs))
          × (decode (bs ++ rest) ≡ some (b, operand_of o, rest)))
      × (b ≡ 0 → (r : ℕ) → o ≡ num r → mov o (num b) (with_reg o) ≡ fault null_pointer)
mov-reg-decodes o b rest v h = (
  λ n. (rm_bytes o b, mov_other o b h n, rm_bytes-decodes o b rest v h),
  λ e r p. rw (e, p) (mov_eax r),
)

relative-lands :
    (size dest buf : ℕ)
    → size < 16
    → dest < 2 ^ 32
    → buf < 2 ^ 32
    → (buf + size + relative size dest buf) % 2 ^ 32 ≡ dest
unfolding relative
relative-lands size dest buf hs hd hb = omega arith

relative-lt : (size dest buf : ℕ) → relative size dest buf < 2 ^ 32
unfolding relative
relative-lt size dest buf = omega arith

-- A jump, a call or a branch (by an opcode below 0x80) to a 32-bit address, emitted at `buf`, lands
-- there: the displacement behind its opcode, added to the address of the next instruction, is the
-- target, modulo 2 ^ 32.
pub target-lands :
    (buf dest cc_kind : ℕ)
    → buf < 2 ^ 32
    → dest < 2 ^ 32
    → cc_kind < 0x80
    → ((rel : ℕ) × (rel < 2 ^ 32)
        × (jump buf (num dest) target ≡ ok (0xE9 ∷ bytes_d rel))
        × ((buf + 5 + rel) % 2 ^ 32 ≡ dest))
      × ((rel : ℕ) × (rel < 2 ^ 32)
          × (call buf (num dest) target ≡ ok (0xE8 ∷ bytes_d rel))
          × ((buf + 5 + rel) % 2 ^ 32 ≡ dest))
      × ((rel : ℕ) × (rel < 2 ^ 32)
          × (branch buf cc_kind dest target ≡ ok (0x0F ∷ (cc_kind + 0x10) ∷ bytes_d rel))
          × ((buf + 6 + rel) % 2 ^ 32 ≡ dest))
unfolding jump call branch imm_opnd_inst
target-lands buf dest c hb hd hc =
    let small : (c + 0x10) % 256 ≡ c + 0x10 = omega arith in
    (
      (
        relative 5 dest buf,
        relative-lt 5 dest buf,
        refl,
        relative-lands 5 dest buf (omega arith) hd hb,
      ),
      (
        relative 5 dest buf,
        relative-lt 5 dest buf,
        refl,
        relative-lands 5 dest buf (omega arith) hd hb,
      ),
      (
        relative 6 dest buf,
        relative-lt 6 dest buf,
        rw small,
        relative-lands 6 dest buf (omega arith) hd hb,
      ),
    )
