-- ===== src/Prepass/Tests.antt =====
-- Runs of the prepass (korp_src/ia32_jit/prepass.cpp) on small methods.
use mini_jvm.Common.{
  Memᴰ, get_elem?, some, ℕ, zero, suc, ◌≡◌, refl, List, [], ◌∷◌, ◌++◌, Bool, true, false, replicate,
  some, ok, fault, out_of_bounds, assert_failed, Ends, arith,
}
use mini_jvm.Prepass.Stack.{Action, run_actions}
use mini_jvm.Prepass.Effects.{fixed_actions, yes_ref, not_ref}
use mini_jvm.Prepass.Spec.{Effect, jvm_effect, room, fixed_actions-effect}
use mini_jvm.Prepass.Shuffle.{
  dup2_x1, first_words, needs, fixed_actions-shuffle, iaload, row_element, row_element-asserts,
}
use mini_jvm.Prepass.Calls.{Method}
use mini_jvm.Prepass.Flow.{State, visit_entries, walk, prepass_bytecode}
use mini_jvm.Prepass.Marks.{Keeps}
use mini_jvm.Prepass.Termination.{prepass_bytecode-Ends}
use mini_jvm.Prepass.Jumps.{
  parse_with, goto_w, BytesAt, long_jump-out_of_bounds, visit_entries-none,
}

-- iconst_0; ifeq +4; iconst_1; return
abbrev branching : Method
branching = record {
  byte_code = 0x03 ∷ 0x99 ∷ 0x00 ∷ 0x04 ∷ 0x04 ∷ 0xb1 ∷ [];
  max_stack = 1;
  constant_pool = [];
}

abbrev marks : List Bool
marks = replicate 6 false ++ true ∷ []

-- All five instructions are visited; the entry, the branch and its target are marked as targets.
prepass_bytecode-branching :
    prepass_bytecode branching [] marks (replicate 7 false)
    ≡ ok (record {
      is_visited = true ∷ true ∷ false ∷ false ∷ true ∷ true ∷ true ∷ [];
      is_target = true ∷ true ∷ false ∷ false ∷ false ∷ true ∷ false ∷ [];
      stack = not_ref ∷ [];
    })
unfolding prepass_bytecode fixed_actions
prepass_bytecode-branching = refl

prepass_bytecode-Ends_example :
    Ends (prepass_bytecode branching (4 ∷ []) marks (replicate 7 false))
    × ((st : State)
        → prepass_bytecode branching (4 ∷ []) marks (replicate 7 false) ≡ ok st
        → Keeps marks st.is_visited
          × ((pc : ℕ) → Memᴰ pc (0 ∷ 4 ∷ []) → get_elem? st.is_visited pc ≡ some true))
prepass_bytecode-Ends_example = prepass_bytecode-Ends branching (4 ∷ []) marks (replicate 7 false)

-- lastore on a stack of five words.
abbrev lastore : Effect
lastore = record { takes = 0 ∷ 0 ∷ 0 ∷ 1 ∷ []; gives = [] }

fixed_actions-effect_example :
    (actions : List Action) × (fixed_actions 0x50 ≡ some actions)
    × (run_actions 5 actions (0 ∷ 0 ∷ 0 ∷ 1 ∷ 1 ∷ []) ≡ ok (1 ∷ []))
unfolding jvm_effect room
fixed_actions-effect_example =
    fixed_actions-effect 0x50 lastore 5 (1 ∷ []) (omega arith) refl (omega arith)

-- A long above a reference.
abbrev pushed : ℕ → ℕ
pushed zero = 0
pushed (suc zero) = 0
pushed (suc (suc i)) = 1

fixed_actions-shuffle_example :
    (actions : List Action) × (fixed_actions 0x5d ≡ some actions)
    × (run_actions 6 actions (first_words 3 pushed ++ 0 ∷ []) ≡ ok (0 ∷ 0 ∷ 1 ∷ 0 ∷ 0 ∷ 0 ∷ []))
unfolding needs
fixed_actions-shuffle_example = fixed_actions-shuffle dup2_x1 pushed 6 (0 ∷ []) (omega arith)

row_element-asserts_example :
    row_element 3 iaload (not_ref ∷ yes_ref ∷ not_ref ∷ []) ≡ fault assert_failed
row_element-asserts_example = row_element-asserts iaload 3 (not_ref ∷ []) (omega arith)

-- goto_w +5; return
abbrev far : Method
far = record {
  byte_code = 0xc8 ∷ 0x00 ∷ 0x00 ∷ 0x00 ∷ 0x05 ∷ 0xb1 ∷ [];
  max_stack = 0;
  constant_pool = [];
}

abbrev unmarked : State
unmarked = record { is_visited = marks; is_target = marks; stack = [] }

far-bytes : BytesAt far.byte_code 0 0xc8 0 0 0
far-bytes = record { first = refl; second = refl; third = refl; fourth = refl }

long_jump-out_of_bounds_example : walk 7 far 0 unmarked ≡ fault out_of_bounds
long_jump-out_of_bounds_example =
    long_jump-out_of_bounds goto_w 6 far 0 0 0 0 unmarked far-bytes (omega arith) (omega arith)
      (omega arith) (omega arith) refl

-- tableswitch 0 to 1 with its cases 24 and 25 bytes on, and the default 26: the entries are at 12.
abbrev switching : Method
switching = record {
  byte_code =
      0xaa ∷ 0 ∷ 0 ∷ 0 ∷ 0 ∷ 0 ∷ 0 ∷ 26 ∷ 0 ∷ 0 ∷ 0 ∷ 0 ∷ 0 ∷ 0 ∷ 0 ∷ 1 ∷ 0 ∷ 0 ∷ 0 ∷ 24 ∷ 0 ∷ 0 ∷ 0
      ∷ 25 ∷ 0x00 ∷ 0x00 ∷ 0xb1 ∷ [];
  max_stack = 1;
  constant_pool = [];
}

abbrev at_switch : State
at_switch = record {
  is_visited = true ∷ replicate 26 false;
  is_target = replicate 27 false;
  stack = [];
}

visit_entries-none_example :
    (st' : State) × (visit_entries (parse_with 9 switching) switching.byte_code 0 4 2 16 at_switch
      ≡ ok st')
    × (st'.is_visited ≡ true ∷ replicate 26 false)
    × (st'.stack ≡ [])
visit_entries-none_example =
    visit_entries-none 8 switching 0 4 2 16 at_switch refl (omega arith)
      (refl, refl, (refl, refl, tt))
