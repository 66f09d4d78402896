-- ===== src/Prepass/Effects.antt =====
-- The cases of the `switch` of `parse_bytecode` (korp_src/ia32_jit/prepass.cpp) that only change the
-- stack: what each does, by the number of the opcode (korp_src/utils/runtime.h).
use mini_jvm.Common.{
  ℕ, List, [], ◌∷◌, Bool, ◌&&◌, ◌||◌, ◌==◌, if◌then◌else◌, leb, Option, none, some,
}
use mini_jvm.Prepass.Stack.{Action, push, times_pop, expect, push_ith, set_ith, swap}

abbrev pub yes_ref : ℕ
yes_ref = 1

abbrev pub not_ref : ℕ
not_ref = 0

-- The opcodes from `lo` to `hi`.
abbrev pub between : ℕ → ℕ → ℕ → Bool
between lo hi op = leb lo op && leb op hi

-- Constants.
unfoldable pub constant_actions : ℕ → Option (List Action)
constant_actions op =
    if op == 0x00
    then some []
    else if op == 0x01
    then some (push yes_ref ∷ [])
    else if between 0x02 0x08 op
    then some (push not_ref ∷ [])
    else if between 0x09 0x0a op
    then some (push not_ref ∷ push not_ref ∷ [])
    else if between 0x0b 0x0d op
    then some (push not_ref ∷ [])
    else if between 0x0e 0x0f op
    then some (push not_ref ∷ push not_ref ∷ [])
    else if between 0x10 0x11 op
    then some (push not_ref ∷ [])
    else none

-- LDC2_W and loads.
unfoldable pub load_actions : ℕ → Option (List Action)
load_actions op =
    if op == 0x14
    then some (push not_ref ∷ push not_ref ∷ [])
    else if op == 0x15 || op == 0x17
    then some (push not_ref ∷ [])
    else if op == 0x19
    then some (push yes_ref ∷ [])
    else if op == 0x16 || op == 0x18
    then some (push not_ref ∷ push not_ref ∷ [])
    else if between 0x1a 0x1d op || between 0x22 0x25 op
    then some (push not_ref ∷ [])
    else if between 0x2a 0x2d op
    then some (push yes_ref ∷ [])
    else if between 0x1e 0x21 op || between 0x26 0x29 op
    then some (push not_ref ∷ push not_ref ∷ [])
    else if op == 0x2e || (op == 0x30 || between 0x32 0x35 op)
    then some (expect 2 yes_ref ∷ expect 1 not_ref ∷ times_pop 2 ∷ push not_ref ∷ [])
    else if op == 0x2f || op == 0x31
    then some (expect 2 yes_ref ∷ expect 1 not_ref ∷ times_pop 2 ∷ push not_ref ∷ push not_ref ∷ [])
    else none

-- Stores, also into arrays.
unfoldable pub store_actions : ℕ → Option (List Action)
store_actions op =
    if op == 0x36 || (op == 0x3a || op == 0x38)
    then some (times_pop 1 ∷ [])
    else if op == 0x39 || op == 0x37
    then some (times_pop 2 ∷ [])
    else if between 0x3b 0x3e op || (between 0x4b 0x4e op || between 0x43 0x46 op)
    then some (times_pop 1 ∷ [])
    else if between 0x3f 0x42 op || between 0x47 0x4a op
    then some (times_pop 2 ∷ [])
    else if op == 0x4f || (op == 0x51 || between 0x53 0x56 op)
    then some (times_pop 3 ∷ [])
    else if op == 0x50 || op == 0x52
    then some (times_pop 4 ∷ [])
    else none

-- pop, dup and swap.
unfoldable pub shuffle_actions : ℕ → Option (List Action)
shuffle_actions op =
    if op == 0x57
    then some (times_pop 1 ∷ [])
    else if op == 0x58
    then some (times_pop 2 ∷ [])
    else if op == 0x59
    then some (push_ith 1 ∷ [])
    else if op == 0x5a
    then some (push_ith 1 ∷ set_ith 2 3 ∷ set_ith 3 1 ∷ [])
    else if op == 0x5b
    then some (push_ith 1 ∷ set_ith 2 3 ∷ set_ith 3 4 ∷ set_ith 4 1 ∷ [])
    else if op == 0x5c
    then some (push_ith 2 ∷ push_ith 2 ∷ [])
    else if op == 0x5d
    then some (push_ith 2 ∷ push_ith 2 ∷ set_ith 3 5 ∷ set_ith 4 1 ∷ set_ith 5 2 ∷ [])
    else if op == 0x5e
    then some (push_ith 2 ∷ push_ith 2 ∷ set_ith 3 5 ∷ set_ith 4 6 ∷ set_ith 5 1 ∷ set_ith 6 2 ∷ [])
    else if op == 0x5f
    then some (swap ∷ [])
    else none

abbrev pub is_word_op : ℕ → Bool
is_word_op op =
    op == 0x60
    || (op == 0x62
        || (op == 0x64
            || (op == 0x66
                || (op == 0x68
                    || (op == 0x6a
                        || (op == 0x6c || (op == 0x6e || (op == 0x70 || op == 0x72))))))))

-- Arithmetic, logic, conversions and comparisons.
unfoldable pub arithmetic_actions : ℕ → Option (List Action)
arithmetic_actions op =
    if is_word_op op
    then some (times_pop 1 ∷ [])
    else if between 0x61 0x73 op
    then some (times_pop 2 ∷ [])
    else if between 0x74 0x77 op
    then some []
    else if op == 0x78 || (op == 0x7a || (op == 0x7c || (op == 0x7e || (op == 0x80 || op == 0x82))))
    then some (times_pop 1 ∷ [])
    else if op == 0x79 || (op == 0x7b || op == 0x7d)
    then some (times_pop 1 ∷ [])
    else if op == 0x7f || (op == 0x81 || op == 0x83)
    then some (times_pop 2 ∷ [])
    else if op == 0x84
    then some []
    else if op == 0x85 || (op == 0x87 || (op == 0x8c || op == 0x8d))
    then some (push not_ref ∷ [])
    else if op == 0x86 || (op == 0x8b || (between 0x91 0x93 op || (op == 0x8a || op == 0x8f)))
    then some []
    else if op == 0x88 || (op == 0x89 || (op == 0x8e || op == 0x90))
    then some (times_pop 1 ∷ [])
    else if op == 0x94 || (op == 0x97 || op == 0x98)
    then some (times_pop 3 ∷ [])
    else if op == 0x95 || op == 0x96
    then some (times_pop 1 ∷ [])
    else none

-- Objects and arrays.
unfoldable pub object_actions : ℕ → Option (List Action)
object_actions op =
    if op == 0xbb || op == 0xd3
    then some (push yes_ref ∷ [])
    else if op == 0xbc || (op == 0xbd || op == 0xd4)
    then some (times_pop 1 ∷ push yes_ref ∷ [])
    else if op == 0xbe
    then some (times_pop 1 ∷ push not_ref ∷ [])
    else if op == 0xc0 || op == 0xd6
    then some (times_pop 1 ∷ push yes_ref ∷ [])
    else if op == 0xc1 || op == 0xd7
    then some (times_pop 1 ∷ push not_ref ∷ [])
    else if between 0xc2 0xc3 op
    then some (times_pop 1 ∷ [])
    else none

abbrev or_else : Option (List Action) → Option (List Action) → Option (List Action)
or_else none other = other
or_else (some a) other = some a

-- All of them: no two groups share an opcode.
unfoldable pub fixed_actions : ℕ → Option (List Action)
unfolding constant_actions load_actions store_actions shuffle_actions arithmetic_actions
    object_actions
fixed_actions op = or_else (constant_actions op) (
    or_else (load_actions op) (
      or_else (store_actions op)
        (or_else (shuffle_actions op) (or_else (arithmetic_actions op) (object_actions op)))))
