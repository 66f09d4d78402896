-- ===== src/Prepass/Calls.antt =====
-- The cases of the `switch` of `parse_bytecode` (korp_src/ia32_jit/prepass.cpp) whose effect on the
-- stack depends on the constant pool or on the bytes behind the opcode, and the readers of those
-- bytes (korp_src/ia32_jit/jit_support.cpp).
use mini_jvm.Common.{
  ℕ, ◌+◌, ◌-◌, ◌*◌, ◌/◌, ◌%◌, ◌^◌, List, [], ◌∷◌, ◌||◌, ◌==◌, if◌then◌else◌, ltb, get_elem?, none,
  some, Run, ok, fault, assert_failed, out_of_bounds, ◌>>=◌, deref, ◌++◌,
}
use mini_jvm.ClassFile.{Entry}
use mini_jvm.Prepare.{is_ref_type_type, typesize_type}
use mini_jvm.PoolTypes.{cp_get_const_type, cp_get_method_descriptor, cp_get_field_type}
use mini_jvm.Descriptor.{method_descriptor_get_param_info}
use mini_jvm.Prepass.Stack.{pop_words, push_word, run_actions, Action, push, times_pop}
use mini_jvm.Prepass.Effects.{yes_ref, not_ref, between, fixed_actions}

-- What the prepass reads of a method: `byte_code`, `max_stack` and the constant pool of its class.
pub record Method : Type 0 where
  pub byte_code : List ℕ
  pub max_stack : ℕ
  pub constant_pool : List Entry

-- `bc[0]`; an index or a byte behind the end of the code is an access out of bounds.
unfoldable pub read_uint8_index : List ℕ → ℕ → Run ℕ
read_uint8_index code i = deref out_of_bounds (get_elem? code i)

unfoldable pub read_uint16_index : List ℕ → ℕ → Run ℕ
unfolding read_uint8_index
read_uint16_index code i = do
  high ← read_uint8_index code i
  low ← read_uint8_index code (i + 1)
  ok (high * 2 ^ 8 + low)

-- An offset is a number of 32 bits, added to a pointer modulo 2 ^ 32; `int16` is sign-extended.
unfoldable pub read_int16_offset : List ℕ → ℕ → Run ℕ
unfolding read_uint16_index
read_int16_offset code i = do
  v ← read_uint16_index code i
  ok (if ltb v (2 ^ 15) then v else v + (2 ^ 32 - 2 ^ 16))

unfoldable pub read_int32_offset : List ℕ → ℕ → Run ℕ
unfolding read_uint16_index
read_int32_offset code i = do
  high ← read_uint16_index code i
  low ← read_uint16_index code (i + 2)
  ok (high * 2 ^ 16 + low)

-- The words that a value of the type `t` pushes: a reference, or one word, or two if it has 8 bytes.
unfoldable pub push_value : ℕ → ℕ → List ℕ → Run (List ℕ)
unfolding push_word
push_value max_stack t stack =
    let wide = (do stack ← push_word max_stack not_ref stack; push_word max_stack not_ref stack) in
    if is_ref_type_type t
    then push_word max_stack yes_ref stack
    else if typesize_type t == 8
    then wide
    else push_word max_stack not_ref stack

-- LDC and LDC_W
unfoldable pub push_constant : Method → ℕ → List ℕ → Run (List ℕ)
unfolding push_word
push_constant m index stack = do
  t ← cp_get_const_type m.constant_pool index
  push_word m.max_stack (if is_ref_type_type t then yes_ref else not_ref) stack

-- GETSTATIC, PUTSTATIC, GETFIELD and PUTFIELD; `words` is what stands below the value.
unfoldable pub load_field : Method → ℕ → ℕ → List ℕ → Run (List ℕ)
unfolding push_value
load_field m words index stack = do
  stack ← pop_words words stack
  t ← cp_get_field_type m.constant_pool index
  push_value m.max_stack t stack

unfoldable pub store_field : Method → ℕ → ℕ → List ℕ → Run (List ℕ)
store_field m words index stack = do
  t ← cp_get_field_type m.constant_pool index
  pop_words (typesize_type t / 4 + words) stack

-- The return value: none for a type of no size.
unfoldable pub push_result : Method → ℕ → List ℕ → Run (List ℕ)
unfolding push_value
push_result m t stack =
    if is_ref_type_type t
    then push_value m.max_stack t stack
    else if typesize_type t == 0
    then ok stack
    else push_value m.max_stack t stack

-- INVOKEVIRTUAL, INVOKESPECIAL and INVOKESTATIC; `words` is 1 with an object below the arguments.
unfoldable pub invoke : Method → ℕ → ℕ → List ℕ → Run (List ℕ)
unfolding push_result
invoke m words index stack = do
  kdesc ← cp_get_method_descriptor m.constant_pool index
  (n_words, ret_type) ← method_descriptor_get_param_info (kdesc.byte ++ 0 ∷ [])
  stack ← pop_words ((n_words + words) % 2 ^ 32) stack
  push_result m ret_type stack

-- INVOKEINTERFACE pops as many words as the instruction says.
unfoldable pub invoke_interface : Method → ℕ → ℕ → List ℕ → Run (List ℕ)
unfolding push_result
invoke_interface m n_args index stack = do
  stack ← pop_words n_args stack
  kdesc ← cp_get_method_descriptor m.constant_pool index
  (_, ret_type) ← method_descriptor_get_param_info (kdesc.byte ++ 0 ∷ [])
  push_result m ret_type stack

-- The inner `switch` of WIDE, RET apart; other opcodes do nothing.
unfoldable pub wide_actions : ℕ → List Action
wide_actions op =
    if op == 0x19
    then push yes_ref ∷ []
    else if op == 0x15 || op == 0x17
    then push not_ref ∷ []
    else if op == 0x16 || op == 0x18
    then push not_ref ∷ push not_ref ∷ []
    else if op == 0x36 || (op == 0x38 || op == 0x3a)
    then times_pop 1 ∷ []
    else if op == 0x37 || op == 0x39
    then times_pop 2 ∷ []
    else []

-- The cases that read the constant pool, MULTIANEWARRAY, and the ones of fixed effect. `pc` is
-- `current_inst`; an opcode without a case fails `assert(0)`.
unfoldable pub stack_effect : Method → ℕ → ℕ → List ℕ → Run (List ℕ)
unfolding read_uint8_index read_uint16_index push_constant load_field store_field invoke
    invoke_interface run_actions
stack_effect m op pc stack =
    let code = m.byte_code in
    let with_index = λ (f : ℕ → Run (List ℕ)). read_uint16_index code (pc + 1) >>= f in
    if op == 0x12
    then (read_uint8_index code (pc + 1) >>= λ index. push_constant m index stack)
    else if op == 0x13
    then with_index (λ index. push_constant m index stack)
    else if op == 0xb2
    then with_index (λ index. load_field m 0 index stack)
    else if op == 0xb3
    then with_index (λ index. store_field m 0 index stack)
    else if op == 0xb4 || op == 0xe3
    then with_index (λ index. load_field m 1 index stack)
    else if op == 0xb5 || op == 0xe4
    then with_index (λ index. store_field m 1 index stack)
    else if between 0xb6 0xb7 op
    then with_index (λ index. invoke m 1 index stack)
    else if op == 0xb8 || op == 0xd8
    then with_index (λ index. invoke m 0 index stack)
    else if op == 0xb9 || op == 0xda
    then with_index (λ index.
      read_uint8_index code (pc + 3) >>= λ n_args. invoke_interface m n_args index stack)
    else if op == 0xc5 || op == 0xd5
    then (read_uint8_index code (pc + 2) >>= λ n_dimen.
        run_actions m.max_stack (times_pop n_dimen ∷ push yes_ref ∷ []) stack)
    else elim (fixed_actions op) [
      | some actions ↦ run_actions m.max_stack actions stack
      | none ↦ fault assert_failed
    ]
