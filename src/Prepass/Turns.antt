-- ===== src/Prepass/Turns.antt =====
-- What an instruction does to the marks of the prepass (korp_src/ia32_jit/prepass.cpp).
use mini_jvm.Common.{ℕ, zero, suc, ◌+◌, ◌-◌, ◌^◌, ◌≤◌, List, Bool, ◌==◌, arith}
use mini_jvm.Prepass.Marks.{
  unvisited, Keeps-refl, Onward, ok-Onward, if-Onward, Onward-from, bind-Onward, bind-Onward_of,
}
use mini_jvm.Prepass.Effects.{not_ref}
use mini_jvm.Prepass.Stack.{pop_words, push_word, run_actions}
use mini_jvm.Prepass.Calls.{
  Method, read_uint8_index, read_uint16_index, read_int16_offset, read_int32_offset, wide_actions,
  stack_effect,
}
use mini_jvm.Prepass.Ends.{
  pop_words-Ends, push_word-Ends, run_actions-Ends, read_uint8_index-Ends, read_uint16_index-Ends,
  read_int16_offset-Ends, read_int32_offset-Ends, stack_effect-Ends,
}
use mini_jvm.Prepass.Flow.{
  State, moved, Parse, parse_bytecode_branch, visit_entries, Outcome, next_inst, block_end,
  branch_inst, jump_inst, jsr_inst, switch_operands, entries, tableswitch, lookupswitch, wide_inst,
  instruction,
}

abbrev pub remaining : State → ℕ
remaining st = unvisited st.is_visited

abbrev pub visits : State → List Bool
visits st = st.is_visited

abbrev pub left : Outcome → List Bool
left (next_inst pc st) = st.is_visited
left (block_end st) = st.is_visited

-- Everything that follows is about a walk that ends from each state with at most `n` instructions left
-- to visit, and never takes a mark away.
module _ {parse : Parse} {n : ℕ}
    (ends : (pc : ℕ) (st : State)
      → remaining st ≤ n
      → Onward visits (visits st) (parse pc st)) where
  branch-Onward :
      (code : List ℕ) (pc bc : ℕ) (st : State)
      → remaining st ≤ n
      → Onward visits (visits st) (parse_bytecode_branch parse code pc bc st)
  unfolding parse_bytecode_branch
  branch-Onward code pc bc st le =
      bind-Onward_of (read_int16_offset code bc) _ (read_int16_offset-Ends code bc) (λ offset _.
        bind-Onward (parse (moved pc offset) st) _ (ends (moved pc offset) st le)
          (λ after h. ok-Onward h))

  visit_entries-Onward :
      (code : List ℕ) (pc stride k bc : ℕ) (st : State)
      → remaining st ≤ n
      → Onward visits (visits st) (visit_entries parse code pc stride k bc st)
  unfolding visit_entries
  visit_entries-Onward code pc stride zero bc st le = ok-Onward Keeps-refl
  visit_entries-Onward code pc stride (suc k) bc st le =
      bind-Onward (parse_bytecode_branch parse code pc bc st) _ (branch-Onward code pc bc st le)
        (λ st' h.
          Onward-from h
            (visit_entries-Onward code pc stride k (bc + stride) st' (omega (arith, h.fewer))))

  branch_inst-Onward :
      (code : List ℕ) (words op pc : ℕ) (st : State)
      → remaining st ≤ n
      → Onward left (visits st) (branch_inst parse code words op pc st)
  unfolding branch_inst
  branch_inst-Onward code words op pc st le =
      bind-Onward_of (pop_words words st.stack) _ (pop_words-Ends words st.stack) (λ stack _.
        bind-Onward (parse_bytecode_branch parse code pc (pc + 1) (record st { stack = stack })) _
          (branch-Onward code pc (pc + 1) (record st { stack = stack }) le)
          (λ after h. ok-Onward h))

  jump_inst-Onward :
      (pc offset : ℕ) (st : State)
      → remaining st ≤ n
      → Onward left (visits st) (jump_inst parse pc offset st)
  unfolding jump_inst
  jump_inst-Onward pc offset st le =
      bind-Onward (parse (moved pc offset) st) _ (ends (moved pc offset) st le)
        (λ after h. ok-Onward h)

  jsr_inst-Onward :
      (max op pc offset : ℕ) (st : State)
      → remaining st ≤ n
      → Onward left (visits st) (jsr_inst parse max op pc offset st)
  unfolding jsr_inst
  jsr_inst-Onward max op pc offset st le =
      bind-Onward_of (push_word max not_ref st.stack) _ (push_word-Ends max not_ref st.stack)
        (λ stack _.
          bind-Onward (parse (moved pc offset) (record st { stack = stack })) _
            (ends (moved pc offset) (record st { stack = stack }) le) (λ after h. ok-Onward h))

  tableswitch-Onward :
      (code : List ℕ) (pc : ℕ) (st : State)
      → remaining st ≤ n
      → Onward left (visits st) (tableswitch parse code pc st)
  unfolding tableswitch
  tableswitch-Onward code pc st le =
      let bc = switch_operands pc in
      bind-Onward_of (pop_words 1 st.stack) _ (pop_words-Ends 1 st.stack) (λ stack _.
        bind-Onward_of (read_int32_offset code bc) _ (read_int32_offset-Ends code bc)
          (λ default_offset _.
            bind-Onward_of (read_int32_offset code (bc + 4)) _
              (read_int32_offset-Ends code (bc + 4))
              (λ low _.
                bind-Onward_of (read_int32_offset code (bc + 8)) _
                  (read_int32_offset-Ends code (bc + 8))
                  (λ high _.
                    let k = entries (high + (2 ^ 32 - low) + 1) in
                    let st' = record st { stack = stack } in
                    bind-Onward (visit_entries parse code pc 4 k (bc + 12) st') _
                      (visit_entries-Onward code pc 4 k (bc + 12) st' le)
                      (λ after h.
                        Onward-from h
                          (jump_inst-Onward pc default_offset after (omega (arith, h.fewer))))))))

  lookupswitch-Onward :
      (code : List ℕ) (pc : ℕ) (st : State)
      → remaining st ≤ n
      → Onward left (visits st) (lookupswitch parse code pc st)
  unfolding lookupswitch
  lookupswitch-Onward code pc st le =
      let bc = switch_operands pc in
      bind-Onward_of (pop_words 1 st.stack) _ (pop_words-Ends 1 st.stack) (λ stack _.
        bind-Onward_of (read_int32_offset code bc) _ (read_int32_offset-Ends code bc)
          (λ default_offset _.
            bind-Onward_of (read_int32_offset code (bc + 4)) _
              (read_int32_offset-Ends code (bc + 4))
              (λ n_pairs _.
                let k = entries n_pairs in
                let st' = record st { stack = stack } in
                bind-Onward (visit_entries parse code pc 8 k (bc + 12) st') _
                  (visit_entries-Onward code pc 8 k (bc + 12) st' le)
                  (λ after h.
                    Onward-from h
                      (jump_inst-Onward pc default_offset after (omega (arith, h.fewer)))))))

  wide_inst-Onward :
      (m : Method) (pc : ℕ) (st : State) → Onward left (visits st) (wide_inst m pc st)
  unfolding wide_inst
  wide_inst-Onward m pc st =
      bind-Onward_of (read_uint8_index m.byte_code (pc + 1)) _
        (read_uint8_index-Ends m.byte_code (pc + 1))
        (λ op _.
          bind-Onward_of (read_uint16_index m.byte_code (pc + 2)) _
            (read_uint16_index-Ends m.byte_code (pc + 2))
            (λ index _. if-Onward (op == 0xa9) (ok-Onward Keeps-refl) (
              bind-Onward_of (run_actions m.max_stack (wide_actions op) st.stack) _
                (run_actions-Ends m.max_stack (wide_actions op) st.stack)
                (λ stack _. ok-Onward Keeps-refl))))

  pub instruction-Onward :
      (m : Method) (op pc : ℕ) (st : State)
      → remaining st ≤ n
      → Onward left (visits st) (instruction parse m op pc st)
  unfolding instruction
  instruction-Onward m op pc st le =
      let code = m.byte_code in
      if-Onward _ (branch_inst-Onward code 1 op pc st le) (
        if-Onward _ (branch_inst-Onward code 2 op pc st le) (
          if-Onward _
            (bind-Onward_of (read_int16_offset code (pc + 1)) _
              (read_int16_offset-Ends code (pc + 1)) (λ offset _. jump_inst-Onward pc offset st le))
            (if-Onward _
              (bind-Onward_of (read_int16_offset code (pc + 1)) _
                (read_int16_offset-Ends code (pc + 1))
                (λ offset _. jsr_inst-Onward m.max_stack op pc offset st le))
              (if-Onward _ (tableswitch-Onward code pc st le) (
                if-Onward _ (lookupswitch-Onward code pc st le) (
                  if-Onward _ (ok-Onward Keeps-refl) (
                    if-Onward _ (wide_inst-Onward m pc st) (
                      if-Onward _
                        (bind-Onward_of (read_int32_offset code pc) _
                          (read_int32_offset-Ends code pc)
                          (λ offset _. jump_inst-Onward pc offset st le))
                        (if-Onward _
                          (bind-Onward_of (read_int32_offset code pc) _
                            (read_int32_offset-Ends code pc)
                            (λ offset _. jsr_inst-Onward m.max_stack op pc offset st le))
                          (bind-Onward_of (stack_effect m op pc st.stack) _
                            (stack_effect-Ends m op pc st.stack)
                            (λ stack _. ok-Onward Keeps-refl)))))))))))
