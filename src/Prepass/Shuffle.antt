-- ===== src/Prepass/Shuffle.antt =====
-- The instructions that move words on the operand stack whatever their kind, and the loads of
-- references from arrays, in `parse_bytecode` (korp_src/ia32_jit/prepass.cpp).
use mini_jvm.Common.{
  ℕ, zero, suc, ◌+◌, ◌≤◌, ◌≡◌, refl, List, [], ◌∷◌, ◌++◌, true, ltb, length, some, Run, ok, fault,
  assert_failed, ◌>>=◌, none, map, arith,
}
use mini_jvm.Prepass.Stack.{Action, run_actions}
use mini_jvm.Prepass.Effects.{fixed_actions, yes_ref, not_ref}
use mini_jvm.Prepass.Frame.{run_actions-frame}

pub data Shuffle : Type 0 where
  pop pop2 dup dup_x1 dup_x2 dup2 dup2_x1 dup2_x2 swap_words : Shuffle

abbrev pub opcode : Shuffle → ℕ
opcode pop = 0x57
opcode pop2 = 0x58
opcode dup = 0x59
opcode dup_x1 = 0x5a
opcode dup_x2 = 0x5b
opcode dup2 = 0x5c
opcode dup2_x1 = 0x5d
opcode dup2_x2 = 0x5e
opcode swap_words = 0x5f

-- The number of words that a shuffle takes.
abbrev pub takes : Shuffle → ℕ
takes pop = 1
takes pop2 = 2
takes dup = 1
takes dup_x1 = 2
takes dup_x2 = 3
takes dup2 = 2
takes dup2_x1 = 3
takes dup2_x2 = 4
takes swap_words = 2

-- Which of them it leaves, by their places from the top, which is 0.
abbrev pub leaves : Shuffle → List ℕ
leaves pop = []
leaves pop2 = []
leaves dup = 0 ∷ 0 ∷ []
leaves dup_x1 = 0 ∷ 1 ∷ 0 ∷ []
leaves dup_x2 = 0 ∷ 1 ∷ 2 ∷ 0 ∷ []
leaves dup2 = 0 ∷ 1 ∷ 0 ∷ 1 ∷ []
leaves dup2_x1 = 0 ∷ 1 ∷ 2 ∷ 0 ∷ 1 ∷ []
leaves dup2_x2 = 0 ∷ 1 ∷ 2 ∷ 3 ∷ 0 ∷ 1 ∷ []
leaves swap_words = 1 ∷ 0 ∷ []

-- The words that stand at the first places.
unfoldable pub first_words : ℕ → (ℕ → ℕ) → List ℕ
first_words zero word = []
first_words (suc n) word = word 0 ∷ first_words n (λ i. word (suc i))

-- The room that a shuffle needs for the words that it takes or leaves.
unfoldable pub needs : Shuffle → ℕ
needs pop = 1
needs pop2 = 2
needs dup = 2
needs dup_x1 = 3
needs dup_x2 = 4
needs dup2 = 4
needs dup2_x1 = 5
needs dup2_x2 = 6
needs swap_words = 2

run_alone :
    (s : Shuffle) (word : ℕ → ℕ)
    → (actions : List Action) × (fixed_actions (opcode s) ≡ some actions)
      × (run_actions (needs s) actions (first_words (takes s) word) ≡ ok (map word (leaves s)))
unfolding fixed_actions run_actions needs first_words
run_alone pop word = (_, refl, refl)
run_alone pop2 word = (_, refl, refl)
run_alone dup word = (_, refl, refl)
run_alone dup_x1 word = (_, refl, refl)
run_alone dup_x2 word = (_, refl, refl)
run_alone dup2 word = (_, refl, refl)
run_alone dup2_x1 word = (_, refl, refl)
run_alone dup2_x2 word = (_, refl, refl)
run_alone swap_words word = (_, refl, refl)

-- Whatever the words are, each of the nine instructions that pop, copy or swap words has a case that
-- leaves the words of the specification in its order, with the rest of the stack below them.
pub fixed_actions-shuffle :
    (s : Shuffle) (word : ℕ → ℕ) (max : ℕ) (rest : List ℕ)
    → needs s + length rest ≤ max
    → (actions : List Action) × (fixed_actions (opcode s) ≡ some actions)
      × (run_actions max actions (first_words (takes s) word ++ rest)
          ≡ ok (map word (leaves s) ++ rest))
fixed_actions-shuffle s word max rest r =
    let (actions, e, p) = run_alone s word in
    (actions, e, run_actions-frame (needs s) max actions (first_words (takes s) word) rest r p)

-- The loads from arrays: of int, long, float, double, references, byte, char and short.
pub data ElementLoad : Type 0 where
  iaload laload faload daload aaload baload caload saload : ElementLoad

abbrev pub load_opcode : ElementLoad → ℕ
load_opcode iaload = 0x2e
load_opcode laload = 0x2f
load_opcode faload = 0x30
load_opcode daload = 0x31
load_opcode aaload = 0x32
load_opcode baload = 0x33
load_opcode caload = 0x34
load_opcode saload = 0x35

-- The actions of an opcode on a stack, if it has any.
unfoldable pub run_op : ℕ → ℕ → List ℕ → Run (List ℕ)
unfolding run_actions
run_op max op stack = elim (fixed_actions op) [
  | some actions ↦ run_actions max actions stack
  | none ↦ fault assert_failed
]

-- `a[i][j]`: a load of a row by `aaload`, the constant `iconst_0`, and any load from that row.
unfoldable pub row_element : ℕ → ElementLoad → List ℕ → Run (List ℕ)
unfolding run_op
row_element max load stack = do
  stack ← run_op max 0x32 stack
  stack ← run_op max 0x03 stack
  run_op max (load_opcode load) stack

asserts :
    (load : ElementLoad) (max : ℕ) (rest : List ℕ)
    → run_op max (load_opcode load) (not_ref ∷ not_ref ∷ rest) ≡ fault assert_failed
unfolding run_op fixed_actions
asserts iaload max rest = refl
asserts laload max rest = refl
asserts faload max rest = refl
asserts daload max rest = refl
asserts aaload max rest = refl
asserts baload max rest = refl
asserts caload max rest = refl
asserts saload max rest = refl

-- The word that `aaload` leaves is marked as no reference, so the load of an element of the row that
-- it gives, by each of the eight loads, fails the assertion of the prepass, on every stack with
-- an index and an array on top.
pub row_element-asserts :
    (load : ElementLoad) (max : ℕ) (rest : List ℕ)
    → 2 + length rest ≤ max
    → row_element max load (not_ref ∷ yes_ref ∷ rest) ≡ fault assert_failed
unfolding row_element run_op fixed_actions run_actions
row_element-asserts load max rest r =
    let first : ltb (length rest) max ≡ true = ground arith in
    let second : ltb (suc (length rest)) max ≡ true = ground arith in
    rw (first, second) (asserts load max rest)
