-- ===== src/Descriptor.antt =====
-- Method descriptors (korp_src/class/method.cpp): `method_get_param_num_size` and
-- `method_descriptor_get_param_info`. A descriptor is the list of its bytes with the terminating 0.
pub mod Grammar
pub mod Ends
mod Tests
use mini_jvm.Common.{
  ℕ, zero, suc, ◌+◌, ◌*◌, ◌%◌, ◌^◌, List, [], ◌∷◌, Bool, ◌||◌, ◌==◌, if◌then◌else◌, length, Run, ok,
  fault, null_pointer, out_of_fuel, reported, ◌>>=◌, next,
}

-- `while( *descriptor == JAVA_TYPE_ARRAY ) descriptor++;`
unfoldable pub skip_arrays : List ℕ → List ℕ
skip_arrays [] = []
skip_arrays (c ∷ descriptor) = if c == b'[' then skip_arrays descriptor else c ∷ descriptor

-- `strchr(descriptor, ';')` and one more: without a semicolon the pointer is NULL.
unfoldable pub after_semicolon : List ℕ → Run (List ℕ)
after_semicolon [] = fault null_pointer
after_semicolon (c ∷ descriptor) =
    if c == b';'
    then ok descriptor
    else if c == 0
    then fault null_pointer
    else after_semicolon descriptor

abbrev pub is_one_word : ℕ → Bool
is_one_word c = c == b'B' || (c == b'C' || (c == b'F' || (c == b'S' || (c == b'Z' || c == b'I'))))

-- The `switch` that both functions have, behind the read of `c`: the words of one parameter.
unfoldable pub one_param : ℕ → List ℕ → Run (ℕ × List ℕ)
unfolding skip_arrays after_semicolon
one_param c descriptor =
    if c == b'['
    then (do
      (e, rest) ← next (skip_arrays descriptor)
      if e == b'L' then (do rest ← after_semicolon rest; ok (1, rest)) else ok (1, rest))
    else if c == b'L'
    then (do rest ← after_semicolon descriptor; ok (1, rest))
    else if is_one_word c
    then ok (1, descriptor)
    else if c == b'D' || c == b'J'
    then ok (2, descriptor)
    else fault reported

unfoldable pub words_loop : ℕ → ℕ → List ℕ → Run (ℕ × List ℕ)
unfolding one_param
words_loop zero size descriptor = fault out_of_fuel
words_loop (suc fuel) size descriptor = do
  (c, descriptor) ← next descriptor
  let more = (do
    (w, descriptor) ← one_param c descriptor
    words_loop fuel ((size + w) % 2 ^ 32) descriptor)
  if c == b')' then ok (size, descriptor) else more

-- The words of the parameters and the first byte of the return type.
unfoldable pub method_descriptor_get_param_info : List ℕ → Run (ℕ × ℕ)
unfolding words_loop
method_descriptor_get_param_info kdesc = do
  (_, descriptor) ← next kdesc
  (size, descriptor) ← words_loop (length kdesc) 0 descriptor
  (ret_type, _) ← next descriptor
  ok (size, ret_type)

unfoldable pub num_size_loop : ℕ → ℕ → ℕ → List ℕ → Run (ℕ × ℕ)
unfolding one_param
num_size_loop zero num size descriptor = fault out_of_fuel
num_size_loop (suc fuel) num size descriptor = do
  (c, descriptor) ← next descriptor
  let more = (do
    (w, descriptor) ← one_param c descriptor
    num_size_loop fuel ((num + 1) % 2 ^ 32) ((size + 4 * w) % 2 ^ 32) descriptor)
  if c == b')' then ok (num, size) else more

-- The number of the parameters and their bytes.
unfoldable pub method_get_param_num_size : List ℕ → Run (ℕ × ℕ)
unfolding num_size_loop
method_get_param_num_size kdesc = do
  (_, descriptor) ← next kdesc
  num_size_loop (length kdesc) 0 0 descriptor
