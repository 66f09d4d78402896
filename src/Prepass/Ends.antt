-- ===== src/Prepass/Ends.antt =====
-- No action of the prepass (korp_src/ia32_jit/prepass.cpp) on the stack runs out of fuel.
use mini_jvm.Common.{
  ℕ, zero, suc, ◌+◌, ◌%◌, ◌^◌, List, [], ◌∷◌, ◌++◌, ◌==◌, ltb, length, Option, none, some, Run,
  fault, assert_failed, Ends, bind-Ends, ok-Ends, fault-Ends, if-Ends, inside-Ends, assert-Ends,
}
use mini_jvm.ClassFile.{
  Slot, tag_array, uint16_object, uint16_pair, int_object, long_object, string_object, ref_pair,
  member_object, Entry, as_string,
}
use mini_jvm.ClassFile.Pool.{as_2uint16, entry_at}
use mini_jvm.Prepare.{is_ref_type_type, typesize_type}
use mini_jvm.PoolTypes.{
  cp_get_const_type, descriptor_of_member, second_ref, cp_get_method_descriptor, cp_get_field_type,
  is_resolved,
}
use mini_jvm.Descriptor.Ends.{get_param_info-Ends}
use mini_jvm.Prepass.Stack.{
  Action, push, times_pop, expect, push_ith, set_ith, swap, pop_words, push_word, get_ith,
  write_ith, run_action, run_actions,
}
use mini_jvm.Prepass.Effects.{fixed_actions, yes_ref, not_ref}
use mini_jvm.Prepass.Calls.{
  Method, read_uint8_index, read_uint16_index, read_int16_offset, read_int32_offset, push_value,
  push_constant, load_field, store_field, push_result, invoke, invoke_interface, stack_effect,
}

pub pop_words-Ends : (n : ℕ) (stack : List ℕ) → Ends (pop_words n stack)
unfolding pop_words
pop_words-Ends zero stack = ok-Ends stack
pop_words-Ends (suc n) [] = fault-Ends (λ h. cc)
pop_words-Ends (suc n) (w ∷ stack) = pop_words-Ends n stack

pub push_word-Ends : (max w : ℕ) (stack : List ℕ) → Ends (push_word max w stack)
unfolding push_word
push_word-Ends max w stack = if-Ends (ltb (length stack) max) (ok-Ends _) (fault-Ends (λ h. cc))

get_ith-Ends : (i : ℕ) (stack : List ℕ) → Ends (get_ith i stack)
unfolding get_ith
get_ith-Ends i stack = inside-Ends _

write_ith-Ends : (i w : ℕ) (stack : List ℕ) → Ends (write_ith i w stack)
unfolding write_ith
write_ith-Ends i w stack = bind-Ends _ _ (get_ith-Ends i stack) (λ v. ok-Ends _)

run_action-Ends : (max : ℕ) (a : Action) (stack : List ℕ) → Ends (run_action max a stack)
unfolding run_action
run_action-Ends max (push w) stack = push_word-Ends max w stack
run_action-Ends max (times_pop n) stack = pop_words-Ends n stack
run_action-Ends max (expect i w) stack =
    bind-Ends _ _ (get_ith-Ends i stack)
      (λ v. bind-Ends _ _ (assert-Ends (v == w)) (λ u. ok-Ends stack))
run_action-Ends max (push_ith i) stack =
    bind-Ends _ _ (get_ith-Ends i stack) (λ v. push_word-Ends max v stack)
run_action-Ends max (set_ith i j) stack =
    bind-Ends _ _ (get_ith-Ends j stack) (λ v. write_ith-Ends i v stack)
run_action-Ends max swap stack = bind-Ends _ _ (get_ith-Ends 1 stack) (λ index.
    bind-Ends _ _ (get_ith-Ends 2 stack)
      (λ v. bind-Ends _ _ (write_ith-Ends 1 v stack) (λ s. write_ith-Ends 2 index s)))

pub run_actions-Ends :
    (max : ℕ) (actions : List Action) (stack : List ℕ) → Ends (run_actions max actions stack)
unfolding run_actions
run_actions-Ends max [] stack = ok-Ends stack
run_actions-Ends max (a ∷ actions) stack =
    bind-Ends _ _ (run_action-Ends max a stack) (λ s. run_actions-Ends max actions s)

pub read_uint8_index-Ends : (code : List ℕ) (i : ℕ) → Ends (read_uint8_index code i)
unfolding read_uint8_index
read_uint8_index-Ends code i = inside-Ends _

pub read_uint16_index-Ends : (code : List ℕ) (i : ℕ) → Ends (read_uint16_index code i)
unfolding read_uint16_index
read_uint16_index-Ends code i =
    bind-Ends _ _ (read_uint8_index-Ends code i)
      (λ a. bind-Ends _ _ (read_uint8_index-Ends code (i + 1)) (λ b. ok-Ends _))

pub read_int16_offset-Ends : (code : List ℕ) (i : ℕ) → Ends (read_int16_offset code i)
unfolding read_int16_offset
read_int16_offset-Ends code i = bind-Ends _ _ (read_uint16_index-Ends code i) (λ a. ok-Ends _)

pub read_int32_offset-Ends : (code : List ℕ) (i : ℕ) → Ends (read_int32_offset code i)
unfolding read_int32_offset
read_int32_offset-Ends code i =
    bind-Ends _ _ (read_uint16_index-Ends code i)
      (λ a. bind-Ends _ _ (read_uint16_index-Ends code (i + 2)) (λ b. ok-Ends _))

as_string-Ends : (s : Slot) → Ends (as_string s)
unfolding as_string
as_string-Ends tag_array = fault-Ends (λ h. cc)
as_string-Ends (uint16_object n) = fault-Ends (λ h. cc)
as_string-Ends (uint16_pair m n) = fault-Ends (λ h. cc)
as_string-Ends (int_object n) = fault-Ends (λ h. cc)
as_string-Ends (long_object n) = fault-Ends (λ h. cc)
as_string-Ends (string_object s) = ok-Ends s
as_string-Ends (ref_pair a b) = fault-Ends (λ h. cc)
as_string-Ends (member_object n d) = fault-Ends (λ h. cc)

second_ref-Ends : (s : Slot) → Ends (second_ref s)
unfolding second_ref
second_ref-Ends tag_array = fault-Ends (λ h. cc)
second_ref-Ends (uint16_object n) = fault-Ends (λ h. cc)
second_ref-Ends (uint16_pair m n) = fault-Ends (λ h. cc)
second_ref-Ends (int_object n) = fault-Ends (λ h. cc)
second_ref-Ends (long_object n) = fault-Ends (λ h. cc)
second_ref-Ends (string_object s) = fault-Ends (λ h. cc)
second_ref-Ends (ref_pair a b) = as_string-Ends b
second_ref-Ends (member_object n d) = fault-Ends (λ h. cc)

descriptor_of_member-Ends : (s : Slot) → Ends (descriptor_of_member s)
unfolding descriptor_of_member
descriptor_of_member-Ends tag_array = fault-Ends (λ h. cc)
descriptor_of_member-Ends (uint16_object n) = fault-Ends (λ h. cc)
descriptor_of_member-Ends (uint16_pair m n) = fault-Ends (λ h. cc)
descriptor_of_member-Ends (int_object n) = fault-Ends (λ h. cc)
descriptor_of_member-Ends (long_object n) = fault-Ends (λ h. cc)
descriptor_of_member-Ends (string_object s) = fault-Ends (λ h. cc)
descriptor_of_member-Ends (ref_pair a b) = fault-Ends (λ h. cc)
descriptor_of_member-Ends (member_object n d) = ok-Ends d

as_2uint16-Ends : (s : Slot) → Ends (as_2uint16 s)
unfolding as_2uint16
as_2uint16-Ends tag_array = fault-Ends (λ h. cc)
as_2uint16-Ends (uint16_object n) = fault-Ends (λ h. cc)
as_2uint16-Ends (uint16_pair m n) = ok-Ends _
as_2uint16-Ends (int_object n) = fault-Ends (λ h. cc)
as_2uint16-Ends (long_object n) = fault-Ends (λ h. cc)
as_2uint16-Ends (string_object s) = fault-Ends (λ h. cc)
as_2uint16-Ends (ref_pair a b) = fault-Ends (λ h. cc)
as_2uint16-Ends (member_object n d) = fault-Ends (λ h. cc)

entry_at-Ends : (cpool : List Entry) (i : ℕ) → Ends (entry_at cpool i)
unfolding entry_at
entry_at-Ends cpool i = inside-Ends _

method_descriptor-Ends : (cpool : List Entry) (i : ℕ) → Ends (cp_get_method_descriptor cpool i)
unfolding cp_get_method_descriptor
method_descriptor-Ends cpool i = bind-Ends _ _ (entry_at-Ends cpool i) (λ e.
    if-Ends (is_resolved e) (descriptor_of_member-Ends e.slot) (
      bind-Ends _ _ (as_2uint16-Ends e.slot)
        (λ p. bind-Ends _ _ (entry_at-Ends cpool p.1) (λ n. second_ref-Ends n.slot))))

field_type-Ends : (cpool : List Entry) (i : ℕ) → Ends (cp_get_field_type cpool i)
unfolding cp_get_field_type
field_type-Ends cpool i = bind-Ends _ _ (method_descriptor-Ends cpool i) (λ d. ok-Ends _)

const_type-Ends : (cpool : List Entry) (i : ℕ) → Ends (cp_get_const_type cpool i)
unfolding cp_get_const_type
const_type-Ends cpool i = bind-Ends _ _ (entry_at-Ends cpool i) (λ e. ok-Ends _)

push_value-Ends : (max t : ℕ) (stack : List ℕ) → Ends (push_value max t stack)
unfolding push_value
push_value-Ends max t stack = if-Ends (is_ref_type_type t) (push_word-Ends max yes_ref stack) (
    if-Ends (typesize_type t == 8)
      (bind-Ends _ _ (push_word-Ends max not_ref stack) (λ s. push_word-Ends max not_ref s))
      (push_word-Ends max not_ref stack))

push_result-Ends : (m : Method) (t : ℕ) (stack : List ℕ) → Ends (push_result m t stack)
unfolding push_result
push_result-Ends m t stack =
    if-Ends (is_ref_type_type t) (push_value-Ends m.max_stack t stack)
      (if-Ends (typesize_type t == 0) (ok-Ends stack) (push_value-Ends m.max_stack t stack))

push_constant-Ends : (m : Method) (index : ℕ) (stack : List ℕ) → Ends (push_constant m index stack)
unfolding push_constant
push_constant-Ends m index stack =
    bind-Ends _ _ (const_type-Ends m.constant_pool index) (λ t. push_word-Ends m.max_stack _ stack)

load_field-Ends :
    (m : Method) (words index : ℕ) (stack : List ℕ) → Ends (load_field m words index stack)
unfolding load_field
load_field-Ends m words index stack = bind-Ends _ _ (pop_words-Ends words stack) (λ s.
    bind-Ends _ _ (field_type-Ends m.constant_pool index) (λ t. push_value-Ends m.max_stack t s))

store_field-Ends :
    (m : Method) (words index : ℕ) (stack : List ℕ) → Ends (store_field m words index stack)
unfolding store_field
store_field-Ends m words index stack =
    bind-Ends _ _ (field_type-Ends m.constant_pool index) (λ t. pop_words-Ends _ stack)

invoke-Ends : (m : Method) (words index : ℕ) (stack : List ℕ) → Ends (invoke m words index stack)
unfolding invoke
invoke-Ends m words index stack = bind-Ends _ _ (method_descriptor-Ends m.constant_pool index) (λ d.
    bind-Ends _ _ (get_param_info-Ends (d.byte ++ 0 ∷ [])) (λ p.
      bind-Ends _ _ (pop_words-Ends ((p.0 + words) % 2 ^ 32) stack)
        (λ s. push_result-Ends m p.1 s)))

invoke_interface-Ends :
    (m : Method) (n_args index : ℕ) (stack : List ℕ) → Ends (invoke_interface m n_args index stack)
unfolding invoke_interface
invoke_interface-Ends m n_args index stack = bind-Ends _ _ (pop_words-Ends n_args stack) (λ s.
    bind-Ends _ _ (method_descriptor-Ends m.constant_pool index)
      (λ d. bind-Ends _ _ (get_param_info-Ends (d.byte ++ 0 ∷ [])) (λ p. push_result-Ends m p.1 s)))

fixed-Ends :
    (max : ℕ) (stack : List ℕ) (actions : Option (List Action))
    → Ends
        (elim actions [ some actions ↦ run_actions max actions stack | none ↦ fault assert_failed ])
fixed-Ends max stack none = fault-Ends (λ h. cc)
fixed-Ends max stack (some actions) = run_actions-Ends max actions stack

pub stack_effect-Ends :
    (m : Method) (op pc : ℕ) (stack : List ℕ) → Ends (stack_effect m op pc stack)
unfolding stack_effect
stack_effect-Ends m op pc stack =
    let code = m.byte_code in
    let index = λ (f : ℕ → Run (List ℕ)) (h : (i : ℕ) → Ends (f i)).
      bind-Ends _ f (read_uint16_index-Ends code (pc + 1)) h in
    if-Ends _
      (bind-Ends _ _ (read_uint8_index-Ends code (pc + 1)) (λ i. push_constant-Ends m i stack))
      (if-Ends _ (index _ (λ i. push_constant-Ends m i stack)) (
        if-Ends _ (index _ (λ i. load_field-Ends m 0 i stack)) (
          if-Ends _ (index _ (λ i. store_field-Ends m 0 i stack)) (
            if-Ends _ (index _ (λ i. load_field-Ends m 1 i stack)) (
              if-Ends _ (index _ (λ i. store_field-Ends m 1 i stack)) (
                if-Ends _ (index _ (λ i. invoke-Ends m 1 i stack)) (
                  if-Ends _ (index _ (λ i. invoke-Ends m 0 i stack)) (
                    if-Ends _
                      (index _ (λ i.
                        bind-Ends _ _ (read_uint8_index-Ends code (pc + 3))
                          (λ n. invoke_interface-Ends m n i stack)))
                      (if-Ends _
                        (bind-Ends _ _ (read_uint8_index-Ends code (pc + 2)) (λ n.
                          run_actions-Ends m.max_stack (times_pop n ∷ push yes_ref ∷ []) stack))
                        (fixed-Ends m.max_stack stack (fixed_actions op)))))))))))
