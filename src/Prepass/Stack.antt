-- ===== src/Prepass/Stack.antt =====
-- The stack of the prepass (`korp_stack` of korp_src/utils/utils.h): a list of words, the top one
-- first, with the room of the method's `max_stack`. A word is YES_REF (1) or NOT_REF (0). A push
-- beyond the room writes behind the array; a pop below the bottom wraps the depth around, and counts
-- here as an access out of bounds at once.
use mini_jvm.Common.{
  ℕ, zero, suc, ◌-◌, List, [], ◌∷◌, ◌==◌, if◌then◌else◌, length, ltb, get_elem?, set, Run, ok,
  fault, out_of_bounds, ◌>>=◌, ◌>>◌, assert, deref,
}

-- One of the calls in a case of the `switch`.
pub data Action : Type 0 where
  push : ℕ → Action
  times_pop : ℕ → Action
  expect : ℕ → ℕ → Action
  push_ith : ℕ → Action
  set_ith : ℕ → ℕ → Action
  swap : Action

unfoldable pub pop_words : ℕ → List ℕ → Run (List ℕ)
pop_words zero stack = ok stack
pop_words (suc n) [] = fault out_of_bounds
pop_words (suc n) (w ∷ stack) = pop_words n stack

unfoldable pub push_word : ℕ → ℕ → List ℕ → Run (List ℕ)
push_word max_stack w stack =
    if ltb (length stack) max_stack then ok (w ∷ stack) else fault out_of_bounds

-- `stack_get_ith`, for `i` from 1 on.
unfoldable pub get_ith : ℕ → List ℕ → Run ℕ
get_ith i stack = deref out_of_bounds (get_elem? stack (i - 1))

-- `stack_set_ith( stack, i, w )`
unfoldable pub write_ith : ℕ → ℕ → List ℕ → Run (List ℕ)
write_ith i w stack = do _ ← get_ith i stack; ok (set stack (i - 1) w)

unfoldable pub run_action : ℕ → Action → List ℕ → Run (List ℕ)
unfolding push_word pop_words get_ith write_ith
run_action max_stack (push w) stack = push_word max_stack w stack
run_action max_stack (times_pop n) stack = pop_words n stack
run_action max_stack (expect i w) stack = do v ← get_ith i stack; assert (v == w); ok stack
run_action max_stack (push_ith i) stack = do v ← get_ith i stack; push_word max_stack v stack
run_action max_stack (set_ith i j) stack = do v ← get_ith j stack; write_ith i v stack
run_action max_stack swap stack = do
  index ← get_ith 1 stack
  v ← get_ith 2 stack
  stack ← write_ith 1 v stack
  write_ith 2 index stack

unfoldable pub run_actions : ℕ → List Action → List ℕ → Run (List ℕ)
unfolding run_action
run_actions max_stack [] stack = ok stack
run_actions max_stack (a ∷ actions) stack = do
  stack ← run_action max_stack a stack
  run_actions max_stack actions stack
