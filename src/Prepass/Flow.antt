-- ===== src/Prepass/Flow.antt =====
-- The walk of `parse_bytecode` and `prepass_bytecode` (korp_src/ia32_jit/prepass.cpp) over the code
-- of a method, and the table of the lengths (korp_src/utils/bytecode.cpp). A position is the distance
-- from `first_bc`; pointers wrap around modulo 2 ^ 32. The counters that nothing reads
-- (`num_blocks`, `num_edges`, `num_call_sites`, `num_returns`), the empty `gcinfo` functions and the
-- use counts of the local variables are left out.
use mini_jvm.Common.{
  ℕ, zero, suc, ◌+◌, ◌-◌, ◌%◌, ◌^◌, List, [], ◌∷◌, Bool, true, ◌||◌, ◌==◌, if◌then◌else◌, ltb,
  length, get_elem?, set, get_or, Run, ok, fault, out_of_bounds, out_of_fuel, ◌>>=◌, deref,
}
use mini_jvm.Prepass.Stack.{push_word, pop_words}
use mini_jvm.Prepass.Effects.{yes_ref, not_ref, between}
use mini_jvm.Prepass.Calls.{
  Method, read_uint8_index, read_uint16_index, read_int16_offset, read_int32_offset, wide_actions,
  stack_effect,
}
use mini_jvm.Prepass.Stack.{run_actions}

-- `bcinst_info`, with one entry more than the code has bytes, and the stack.
pub record State : Type 0 where
  pub is_visited : List Bool
  pub is_target : List Bool
  pub stack : List ℕ

abbrev pub bcinst_len : List ℕ
bcinst_len =
    1 ∷ 1 ∷ 1 ∷ 1 ∷ 1 ∷ 1 ∷ 1 ∷ 1 ∷ 1 ∷ 1 ∷ 1 ∷ 1 ∷ 1 ∷ 1 ∷ 1 ∷ 1 ∷ 2 ∷ 3 ∷ 2 ∷ 3 ∷ 3 ∷ 2 ∷ 2 ∷ 2
    ∷ 2 ∷ 2 ∷ 1 ∷ 1 ∷ 1 ∷ 1 ∷ 1 ∷ 1 ∷ 1 ∷ 1 ∷ 1 ∷ 1 ∷ 1 ∷ 1 ∷ 1 ∷ 1 ∷ 1 ∷ 1 ∷ 1 ∷ 1 ∷ 1 ∷ 1 ∷ 1 ∷ 1
    ∷ 1 ∷ 1 ∷ 1 ∷ 1 ∷ 1 ∷ 1 ∷ 2 ∷ 2 ∷ 2 ∷ 2 ∷ 2 ∷ 1 ∷ 1 ∷ 1 ∷ 1 ∷ 1 ∷ 1 ∷ 1 ∷ 1 ∷ 1 ∷ 1 ∷ 1 ∷ 1 ∷ 1
    ∷ 1 ∷ 1 ∷ 1 ∷ 1 ∷ 1 ∷ 1 ∷ 1 ∷ 1 ∷ 1 ∷ 1 ∷ 1 ∷ 1 ∷ 1 ∷ 1 ∷ 1 ∷ 1 ∷ 1 ∷ 1 ∷ 1 ∷ 1 ∷ 1 ∷ 1 ∷ 1 ∷ 1
    ∷ 1 ∷ 1 ∷ 1 ∷ 1 ∷ 1 ∷ 1 ∷ 1 ∷ 1 ∷ 1 ∷ 1 ∷ 1 ∷ 1 ∷ 1 ∷ 1 ∷ 1 ∷ 1 ∷ 1 ∷ 1 ∷ 1 ∷ 1 ∷ 1 ∷ 1 ∷ 1 ∷ 1
    ∷ 1 ∷ 1 ∷ 1 ∷ 1 ∷ 1 ∷ 1 ∷ 1 ∷ 1 ∷ 1 ∷ 1 ∷ 1 ∷ 1 ∷ 3 ∷ 1 ∷ 1 ∷ 1 ∷ 1 ∷ 1 ∷ 1 ∷ 1 ∷ 1 ∷ 1 ∷ 1 ∷ 1
    ∷ 1 ∷ 1 ∷ 1 ∷ 1 ∷ 1 ∷ 1 ∷ 1 ∷ 1 ∷ 1 ∷ 3 ∷ 3 ∷ 3 ∷ 3 ∷ 3 ∷ 3 ∷ 3 ∷ 3 ∷ 3 ∷ 3 ∷ 3 ∷ 3 ∷ 3 ∷ 3 ∷ 3
    ∷ 3 ∷ 2 ∷ 0 ∷ 0 ∷ 1 ∷ 1 ∷ 1 ∷ 1 ∷ 1 ∷ 1 ∷ 3 ∷ 3 ∷ 3 ∷ 3 ∷ 3 ∷ 3 ∷ 3 ∷ 5 ∷ 0 ∷ 3 ∷ 2 ∷ 3 ∷ 1 ∷ 1
    ∷ 3 ∷ 3 ∷ 1 ∷ 1 ∷ 1 ∷ 4 ∷ 3 ∷ 3 ∷ 5 ∷ 5 ∷ []

-- `kenv->bytecode_inst_len[bytecode]`, 0 for the rest of the 256 entries.
unfoldable pub inst_len : ℕ → ℕ
inst_len bytecode = get_or bcinst_len bytecode 0

-- `current_inst+offset`
unfoldable pub moved : ℕ → ℕ → ℕ
moved pc offset = (pc + offset) % 2 ^ 32

-- What the functions below take for `parse_bytecode` itself.
abbrev pub Parse : Type 0
Parse = ℕ → State → Run State

abbrev pub mark_target : ℕ → State → State
mark_target pc st = record st { is_target = set st.is_target pc true }

abbrev pub mark_visited : ℕ → State → State
mark_visited pc st = record st { is_visited = set st.is_visited pc true }

-- `bcinst_info[pc].is_visited`
unfoldable pub visited_at : State → ℕ → Run Bool
visited_at st pc = deref out_of_bounds (get_elem? st.is_visited pc)

-- `parse_bytecode_branch( offset_bc )`: the target is walked with a copy of the stack.
unfoldable pub parse_bytecode_branch : Parse → List ℕ → ℕ → ℕ → State → Run State
unfolding read_int16_offset moved
parse_bytecode_branch parse code pc offset_bc st = do
  offset ← read_int16_offset code offset_bc
  after ← parse (moved pc offset) st
  ok (record after { stack = st.stack })

-- The loop over the entries of a switch, which are `stride` bytes apart.
unfoldable pub visit_entries : Parse → List ℕ → ℕ → ℕ → ℕ → ℕ → State → Run State
unfolding parse_bytecode_branch
visit_entries parse code pc stride zero bc st = ok st
visit_entries parse code pc stride (suc n) bc st = do
  st ← parse_bytecode_branch parse code pc bc st
  visit_entries parse code pc stride n (bc + stride) st

-- What an instruction leads to: the next position of the same block, or the end of the block.
pub data Outcome : Type 0 where
  next_inst : ℕ → State → Outcome
  block_end : State → Outcome

-- The six comparisons with zero and the two with null, and the eight of two words.
unfoldable pub branch_inst : Parse → List ℕ → ℕ → ℕ → ℕ → State → Run Outcome
unfolding parse_bytecode_branch
branch_inst parse code words op pc st = do
  stack ← pop_words words st.stack
  st ← parse_bytecode_branch parse code pc (pc + 1) (record st { stack = stack })
  ok (next_inst (moved pc (inst_len op)) (mark_target pc st))

-- A jump to the offset, which ends the block.
unfoldable pub jump_inst : Parse → ℕ → ℕ → State → Run Outcome
unfolding moved
jump_inst parse pc offset st = do st ← parse (moved pc offset) st; ok (block_end st)

-- A subroutine is walked with the same stack, and the block goes on.
unfoldable pub jsr_inst : Parse → ℕ → ℕ → ℕ → ℕ → State → Run Outcome
unfolding moved
jsr_inst parse max_stack op pc offset st = do
  stack ← push_word max_stack not_ref st.stack
  st ← parse (moved pc offset) (record st { stack = stack })
  ok (next_inst (moved pc (inst_len op)) st)

-- `(current_inst+1) + ((4-(current_inst-first_bc+1)) & 0x03)`
unfoldable pub switch_operands : ℕ → ℕ
switch_operands pc = pc + 1 + (3 - pc % 4)

-- `n_entries`, an `int`: a negative one is no entry.
unfoldable pub entries : ℕ → ℕ
entries n = if ltb (n % 2 ^ 32) (2 ^ 31) then n % 2 ^ 32 else 0

unfoldable pub tableswitch : Parse → List ℕ → ℕ → State → Run Outcome
unfolding switch_operands read_int32_offset entries visit_entries jump_inst
tableswitch parse code pc st = do
  stack ← pop_words 1 st.stack
  let bc = switch_operands pc
  default_offset ← read_int32_offset code bc
  low ← read_int32_offset code (bc + 4)
  high ← read_int32_offset code (bc + 8)
  let n_entries = entries (high + (2 ^ 32 - low) + 1)
  st ← visit_entries parse code pc 4 n_entries (bc + 12) (record st { stack = stack })
  jump_inst parse pc default_offset st

unfoldable pub lookupswitch : Parse → List ℕ → ℕ → State → Run Outcome
unfolding switch_operands read_int32_offset entries visit_entries jump_inst
lookupswitch parse code pc st = do
  stack ← pop_words 1 st.stack
  let bc = switch_operands pc
  default_offset ← read_int32_offset code bc
  n_pairs ← read_int32_offset code (bc + 4)
  st ← visit_entries parse code pc 8 (entries n_pairs) (bc + 12) (record st { stack = stack })
  jump_inst parse pc default_offset st

-- WIDE has moved `current_inst` by two when the length of the inner opcode is added, and by four at
-- IINC.
unfoldable pub wide_inst : Method → ℕ → State → Run Outcome
unfolding read_uint8_index read_uint16_index run_actions wide_actions moved inst_len
wide_inst m pc st = do
  op ← read_uint8_index m.byte_code (pc + 1)
  index ← read_uint16_index m.byte_code (pc + 2)
  let more = (do
    stack ← run_actions m.max_stack (wide_actions op) st.stack
    let skipped = if op == 0x84 then 4 else 2
    ok (next_inst (moved pc (skipped + inst_len op)) (record st { stack = stack })))
  if op == 0xa9 then ok (block_end st) else more

-- RET, the returns and ATHROW.
abbrev pub ends_block : ℕ → Bool
ends_block op = op == 0xa9 || (between 0xac 0xb1 op || op == 0xbf)

-- One turn of the loop behind the marks.
unfoldable pub instruction : Parse → Method → ℕ → ℕ → State → Run Outcome
unfolding branch_inst jump_inst jsr_inst tableswitch lookupswitch wide_inst stack_effect
    read_int16_offset read_int32_offset
instruction parse m op pc st =
    let code = m.byte_code in
    let other = (do
      stack ← stack_effect m op pc st.stack
      ok (next_inst (moved pc (inst_len op)) (record st { stack = stack }))) in
    if between 0x99 0x9e op || between 0xc6 0xc7 op
    then branch_inst parse code 1 op pc st
    else if between 0x9f 0xa6 op
    then branch_inst parse code 2 op pc st
    else if op == 0xa7
    then (read_int16_offset code (pc + 1) >>= λ offset. jump_inst parse pc offset st)
    else if op == 0xa8
    then (read_int16_offset code (pc + 1) >>= λ offset. jsr_inst parse m.max_stack op pc offset st)
    else if op == 0xaa
    then tableswitch parse code pc st
    else if op == 0xab
    then lookupswitch parse code pc st
    else if ends_block op
    then ok (block_end st)
    else if op == 0xc4
    then wide_inst m pc st
    else if op == 0xc8
    then (read_int32_offset code pc >>= λ offset. jump_inst parse pc offset st)
    else if op == 0xc9
    then (read_int32_offset code pc >>= λ offset. jsr_inst parse m.max_stack op pc offset st)
    else other

-- The entry of `parse_bytecode`: the first instruction is a target.
unfoldable pub enter : ℕ → State → Run State
unfolding visited_at
enter pc st = do _ ← visited_at st pc; ok (mark_target pc st)

unfoldable pub proceed : Parse → Outcome → Run State
proceed continue (next_inst pc st) = continue pc st
proceed continue (block_end st) = ok st

-- One turn of the loop, where `continue` is the loop itself.
unfoldable pub turn : Parse → Method → ℕ → State → Run State
unfolding instruction enter proceed read_uint8_index
turn continue m pc st = do
  op ← read_uint8_index m.byte_code pc
  outcome ← instruction (λ pc st. enter pc st >>= continue pc) m op pc (mark_visited pc st)
  proceed continue outcome

-- `while(! cur_bcinst_info->is_visited )`
unfoldable pub walk : ℕ → Method → ℕ → State → Run State
unfolding visited_at turn
walk zero m pc st = fault out_of_fuel
walk (suc fuel) m pc st = do
  seen ← visited_at st pc
  let more = turn (walk fuel m) m pc st
  if seen then ok st else more

-- The fuel is one more than there are instructions to visit.
unfoldable pub parse_bytecode : Method → ℕ → State → Run State
unfolding enter walk
parse_bytecode m pc st = do st ← enter pc st; walk (length st.is_visited + 1) m pc st

-- The handlers start with the exception on the stack.
unfoldable pub parse_handler_code : Method → List ℕ → State → Run State
unfolding parse_bytecode push_word
parse_handler_code m [] st = ok st
parse_handler_code m (handler_pc ∷ handlers) st = do
  stack ← push_word m.max_stack yes_ref []
  st ← parse_bytecode m handler_pc (record st { stack = stack })
  parse_handler_code m handlers st

unfoldable pub prepass_bytecode : Method → List ℕ → List Bool → List Bool → Run State
unfolding parse_bytecode parse_handler_code
prepass_bytecode m handlers is_visited is_target = do
  st ← parse_bytecode m 0 (record { is_visited = is_visited; is_target = is_target; stack = [] })
  parse_handler_code m handlers st
