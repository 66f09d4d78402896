-- ===== src/Descriptor/Ends.antt =====
-- The loops over a descriptor (korp_src/class/method.cpp) have enough fuel on every input.
use mini_jvm.Common.{
  ℕ, zero, suc, ◌+◌, ◌%◌, ◌^◌, ◌≤◌, ◌<◌, List, [], ◌∷◌, ◌||◌, ◌==◌, length, ok, ◌>>=◌, next, Ends,
  bind-Ends, bind-Ends_of, ok-Ends, if-Ends, Within, Within-le, ok-Within, bind-Within, if-Within,
  fault-Within, arith, ◌-◌,
}
use mini_jvm.Descriptor.{
  skip_arrays, after_semicolon, one_param, is_one_word, words_loop,
  method_descriptor_get_param_info,
}

-- What is read leaves no more bytes than there were.
abbrev rest_of : ℕ × List ℕ → ℕ
rest_of p = length p.1

skip_arrays-length : (d : List ℕ) → length (skip_arrays d) ≤ length d
unfolding skip_arrays
skip_arrays-length [] = omega arith
skip_arrays-length (c ∷ d) = ground (arith, skip_arrays-length d)

after_semicolon-Within : (d : List ℕ) → Within length (length d) (after_semicolon d)
unfolding after_semicolon
after_semicolon-Within [] = fault-Within (λ h. cc)
after_semicolon-Within (c ∷ d) = if-Within (c == b';') (ok-Within (omega arith)) (
    if-Within (c == 0) (fault-Within (λ h. cc))
      (Within-le (omega arith) (after_semicolon-Within d)))

next-Within : (d : List ℕ) → Within rest_of (length d - 1) (next d)
next-Within [] = fault-Within (λ h. cc)
next-Within (c ∷ d) = ok-Within (omega arith)

to_semicolon :
    (d : List ℕ) (n : ℕ)
    → length d ≤ n
    → Within rest_of n (after_semicolon d >>= λ rest. ok (1, rest))
to_semicolon d n le =
    bind-Within (after_semicolon d) _ (after_semicolon-Within d) (λ rest h. ok-Within (omega arith))

one_param-Within : (c : ℕ) (d : List ℕ) → Within rest_of (length d) (one_param c d)
unfolding one_param
one_param-Within c d =
    if-Within (c == b'[')
      (bind-Within (next (skip_arrays d)) _ (next-Within (skip_arrays d)) (λ p h.
        let le : length p.1 ≤ length d = omega (arith, skip_arrays-length d) in
        if-Within (p.0 == b'L') (to_semicolon p.1 (length d) le) (ok-Within le)))
      (if-Within (c == b'L') (to_semicolon d (length d) (omega arith)) (
        if-Within (is_one_word c) (ok-Within (omega arith))
          (if-Within (c == b'D' || c == b'J') (ok-Within (omega arith)) (fault-Within (λ h. cc)))))

words_loop-Ends : (fuel size : ℕ) (d : List ℕ) → length d < fuel → Ends (words_loop fuel size d)
unfolding words_loop
words_loop-Ends zero size d lt = absurd (omega arith)
words_loop-Ends (suc fuel) size [] lt = λ h. absurd (cc)
words_loop-Ends (suc fuel) size (c ∷ d) lt = if-Ends (c == b')') (ok-Ends _) (
    bind-Ends_of (one_param c d) _ (one_param-Within c d).ends (λ p e.
      let le : length p.1 ≤ length d = (one_param-Within c d).bound p e in
      words_loop-Ends fuel ((size + p.0) % 2 ^ 32) p.1 (omega arith)))

pub get_param_info-Ends : (kdesc : List ℕ) → Ends (method_descriptor_get_param_info kdesc)
unfolding method_descriptor_get_param_info
get_param_info-Ends [] = λ h. absurd (cc)
get_param_info-Ends (c ∷ d) =
    bind-Ends (words_loop (suc (length d)) 0 d) _
      (words_loop-Ends (suc (length d)) 0 d (omega arith))
      (λ p. bind-Ends (next p.1) _ (next-Within p.1).ends (λ r. ok-Ends _))
