-- ===== src/Prepass/Jumps.antt =====
-- Where the walk of the prepass (korp_src/ia32_jit/prepass.cpp) leads at the instructions with long
-- offsets: GOTO_W, JSR_W and the two switches.
use mini_jvm.Common.{
  ℕ, zero, suc, ◌+◌, ◌*◌, ◌%◌, ◌^◌, ◌≤◌, ◌<◌, ◌≡◌, refl, ap, inl, inr, List, [], ◌∷◌, Bool, true,
  false, ltb, length, get_elem?, get_elem?-lt, length-set, some, none, ok, fault, out_of_bounds,
  ◌>>=◌, deref, ok-bind, arith, Bool-cases,
}
use mini_jvm.Prepass.Effects.{not_ref}
use mini_jvm.Prepass.Stack.{push_word}
use mini_jvm.Prepass.Calls.{Method, read_uint8_index, read_int16_offset, read_int32_offset}
use mini_jvm.Prepass.Flow.{
  State, Parse, mark_target, mark_visited, visited_at, visit_entries, jump_inst, jsr_inst,
  instruction, enter, proceed, turn, walk,
}

-- What `parse_bytecode` does with the fuel that a walk leaves it.
abbrev pub parse_with : ℕ → Method → Parse
parse_with fuel m pc st = enter pc st >>= walk fuel m pc

get_elem?-none : (marks : List Bool) (i : ℕ) → length marks ≤ i → get_elem? marks i ≡ none
get_elem?-none [] i le = refl
get_elem?-none (b ∷ marks) zero le = absurd (omega arith)
get_elem?-none (b ∷ marks) (suc i) le = get_elem?-none marks i (omega arith)

-- The four bytes at a place.
pub record BytesAt (code : List ℕ) (i a b c d : ℕ) : Type 0 where
  pub first : get_elem? code i ≡ some a
  pub second : get_elem? code (i + 1) ≡ some b
  pub third : get_elem? code (i + 2) ≡ some c
  pub fourth : get_elem? code (i + 2 + 1) ≡ some d

read_int32_offset-at :
    (code : List ℕ) {i a b c d : ℕ}
    → BytesAt code i a b c d
    → read_int32_offset code i ≡ ok ((a * 2 ^ 8 + b) * 2 ^ 16 + (c * 2 ^ 8 + d))
unfolding read_int32_offset
read_int32_offset-at code h = rw (h.first, h.second, h.third, h.fourth) refl

-- A jump behind all marks.
parse_with-outside :
    (fuel : ℕ) (m : Method) (pc : ℕ) (st : State)
    → length st.is_visited ≤ pc
    → parse_with fuel m pc st ≡ fault out_of_bounds
unfolding enter visited_at
parse_with-outside fuel m pc st le = rw (get_elem?-none st.is_visited pc le) refl

jump-outside :
    (fuel : ℕ) (m : Method) (pc offset : ℕ) (st : State)
    → length st.is_visited ≤ (pc + offset) % 2 ^ 32
    → jump_inst (parse_with fuel m) pc offset st ≡ fault out_of_bounds
unfolding jump_inst
jump-outside fuel m pc offset st le =
    rw (parse_with-outside fuel m ((pc + offset) % 2 ^ 32) st le) refl

jsr-outside :
    (fuel : ℕ) (m : Method) (op pc offset : ℕ) (st : State)
    → length st.is_visited ≤ (pc + offset) % 2 ^ 32
    → jsr_inst (parse_with fuel m) m.max_stack op pc offset st ≡ fault out_of_bounds
unfolding jsr_inst push_word
jsr-outside fuel m op pc offset st le = elim (Bool-cases (ltb (length st.stack) m.max_stack)) [
  | inl e ↦
      rw
        (
          e,
          parse_with-outside fuel m ((pc + offset) % 2 ^ 32)
              (record st { stack = not_ref ∷ st.stack }) le,
        )
        refl
  | inr e ↦ rw e refl
]

pub data LongJump : Type 0 where
  goto_w jsr_w : LongJump

abbrev pub jump_opcode : LongJump → ℕ
jump_opcode goto_w = 0xc8
jump_opcode jsr_w = 0xc9

long_jump-outside :
    (jump : LongJump) (fuel : ℕ) (m : Method) (pc b c d : ℕ) (st : State)
    → BytesAt m.byte_code pc (jump_opcode jump) b c d
    → b < 256
    → c < 256
    → d < 256
    → pc < 2 ^ 16
    → length st.is_visited ≤ 2 ^ 16
    → instruction (parse_with fuel m) m (jump_opcode jump) pc st ≡ fault out_of_bounds
unfolding instruction
long_jump-outside goto_w fuel m pc b c d st h lb lc ld lp ls =
    rw (read_int32_offset-at m.byte_code h) (jump-outside fuel m pc _ st (omega arith))
long_jump-outside jsr_w fuel m pc b c d st h lb lc ld lp ls =
    rw (read_int32_offset-at m.byte_code h) (jsr-outside fuel m 0xc9 pc _ st (omega arith))

-- GOTO_W and JSR_W read their offset from the opcode on, so the walk leaves the marks at each of them
-- that it has not visited, in every method with at most 65535 bytes of code, whatever the
-- three bytes behind the opcode are.
pub long_jump-out_of_bounds :
    (jump : LongJump) (fuel : ℕ) (m : Method) (pc b c d : ℕ) (st : State)
    → BytesAt m.byte_code pc (jump_opcode jump) b c d
    → b < 256
    → c < 256
    → d < 256
    → length st.is_visited ≤ 2 ^ 16
    → get_elem? st.is_visited pc ≡ some false
    → walk (suc fuel) m pc st ≡ fault out_of_bounds
unfolding walk visited_at turn read_uint8_index
long_jump-out_of_bounds jump fuel m pc b c d st h lb lc ld ls open_here =
    let inside : pc < 2 ^ 16 = omega (arith, get_elem?-lt st.is_visited pc open_here) in
    let outside : instruction (parse_with fuel m) m (jump_opcode jump) pc (mark_visited pc st)
        ≡ fault out_of_bounds =
      long_jump-outside jump fuel m pc b c d (mark_visited pc st) h lb lc ld inside
        (omega (arith, length-set st.is_visited pc true)) in
    let at_op : deref out_of_bounds (get_elem? m.byte_code pc) ≡ ok (jump_opcode jump) =
      ap (deref out_of_bounds) h.first in
    let ended : turn (walk fuel m) m pc st ≡ fault out_of_bounds =
      ok-bind at_op _ (ap (λ r. r >>= proceed (walk fuel m)) outside) in
    rw (open_here) ended

-- An entry of a switch whose offset is below 2 ^ 16 starts with two zero bytes.
abbrev pub ZeroEntries : List ℕ → ℕ → ℕ → ℕ → Type 0
ZeroEntries code stride zero bc = Unit
ZeroEntries code stride (suc n) bc =
    (get_elem? code bc ≡ some 0)
    × (get_elem? code (bc + 1) ≡ some 0)
    × ZeroEntries code stride n (bc + stride)

parse_with-visited :
    (fuel : ℕ) (m : Method) (pc : ℕ) (st : State)
    → get_elem? st.is_visited pc ≡ some true
    → parse_with (suc fuel) m pc st ≡ ok (mark_target pc st)
unfolding enter walk visited_at
parse_with-visited fuel m pc st e = rw (e, e) refl

-- While a switch is walked its own instruction is marked as visited. Then the loop over entries with
-- offsets below 2 ^ 16, at any stride, ends without visiting an instruction and leaves the stack: it
-- reads the upper half of each entry, and so goes back to the switch instead of the case.
pub visit_entries-none :
    (fuel : ℕ) (m : Method) (pc stride n bc : ℕ) (st : State)
    → get_elem? st.is_visited pc ≡ some true
    → pc < 2 ^ 32
    → ZeroEntries m.byte_code stride n bc
    → (st' : State) × (visit_entries (parse_with (suc fuel) m) m.byte_code pc stride n bc st
        ≡ ok st')
      × (st'.is_visited ≡ st.is_visited)
      × (st'.stack ≡ st.stack)
unfolding visit_entries read_int16_offset
visit_entries-none fuel m pc stride zero bc st e lt zeros = (st, refl, refl, refl)
visit_entries-none fuel m pc stride (suc n) bc st e lt (a, b, zeros) =
    let (st', p, q, r) =
      visit_entries-none fuel m pc stride n (bc + stride) (mark_target pc st) e lt zeros in
    let same : (pc + 0) % 2 ^ 32 ≡ pc = omega arith in
    (st', rw (a, b, same, parse_with-visited fuel m pc st e) p, q, r)
