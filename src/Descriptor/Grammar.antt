-- ===== src/Descriptor/Grammar.antt =====
-- The grammar of method descriptors, written as a printer, and what the two readers
-- (korp_src/class/method.cpp) make of its output.
use mini_jvm.Common.{
  ℕ, zero, suc, ◌+◌, ◌*◌, ◌%◌, ◌^◌, ◌≤◌, ◌<◌, ◌≡◌, ◌≢◌, refl, ap, ◌∙◌, subst, List, [], ◌∷◌, ◌++◌,
  append_assoc, false, ◌==◌, if◌then◌else◌, length, length-append, All, arith, Run, ok, ◌>>=◌, next,
}
use mini_jvm.Descriptor.{
  skip_arrays, after_semicolon, one_param, words_loop, method_descriptor_get_param_info,
  num_size_loop, method_get_param_num_size,
}

pub data BaseType : Type 0 where
  byte char float short boolean int double long : BaseType

pub data JavaType : Type 0 where
  base : BaseType → JavaType
  class : List ℕ → JavaType
  array : JavaType → JavaType

-- A name holds no semicolon and no terminator.
abbrev pub IsName : List ℕ → Type 0
IsName = All (λ c. (c ≢ b';') × (c ≢ 0))

abbrev pub IsType : JavaType → Type 0
IsType (base b) = Unit
IsType (class n) = IsName n
IsType (array t) = IsType t

abbrev pub letter : BaseType → ℕ
letter byte = b'B'
letter char = b'C'
letter float = b'F'
letter short = b'S'
letter boolean = b'Z'
letter int = b'I'
letter double = b'D'
letter long = b'J'

unfoldable pub print : JavaType → List ℕ
print (base b) = letter b ∷ []
print (class n) = b'L' ∷ n ++ b';' ∷ []
print (array t) = b'[' ∷ print t

unfoldable pub print_all : List JavaType → List ℕ
print_all [] = []
print_all (t ∷ ts) = print t ++ print_all ts

-- `long` and `double` take two words; an array is a reference.
abbrev pub words : JavaType → ℕ
words (base double) = 2
words (base long) = 2
words (base b) = 1
words (class n) = 1
words (array t) = 1

unfoldable pub all_words : List JavaType → ℕ
all_words [] = 0
all_words (t ∷ ts) = words t + all_words ts

after_semicolon-name : (n rest : List ℕ) → IsName n → after_semicolon (n ++ b';' ∷ rest) ≡ ok rest
unfolding after_semicolon
after_semicolon-name [] rest h = refl
after_semicolon-name (c ∷ n) rest ((a, b), h) =
    let x : (c == b';') ≡ false = ground arith in
    let y : (c == 0) ≡ false = ground arith in rw (x, y) (after_semicolon-name n rest h)

-- Behind the brackets of an array stands the element type.
element : JavaType → JavaType
element (base b) = base b
element (class n) = class n
element (array t) = element t

skip_arrays-print :
    (t : JavaType) (rest : List ℕ) → skip_arrays (print t ++ rest) ≡ print (element t) ++ rest
unfolding skip_arrays print element
skip_arrays-print (base byte) rest = refl
skip_arrays-print (base char) rest = refl
skip_arrays-print (base float) rest = refl
skip_arrays-print (base short) rest = refl
skip_arrays-print (base boolean) rest = refl
skip_arrays-print (base int) rest = refl
skip_arrays-print (base double) rest = refl
skip_arrays-print (base long) rest = refl
skip_arrays-print (class n) rest = refl
skip_arrays-print (array t) rest = skip_arrays-print t rest

-- An element that is behind the brackets: what the code makes of it.
of_element : List ℕ → Run (ℕ × List ℕ)
of_element d = do
  (e, rest) ← next d
  if e == b'L' then (do rest ← after_semicolon rest; ok (1, rest)) else ok (1, rest)

of_element-print :
    (t : JavaType) (rest : List ℕ)
    → IsType t
    → of_element (print (element t) ++ rest) ≡ ok (1, rest)
unfolding of_element print element
of_element-print (base byte) rest h = refl
of_element-print (base char) rest h = refl
of_element-print (base float) rest h = refl
of_element-print (base short) rest h = refl
of_element-print (base boolean) rest h = refl
of_element-print (base int) rest h = refl
of_element-print (base double) rest h = refl
of_element-print (base long) rest h = refl
of_element-print (class n) rest h =
    rw (append_assoc n (b';' ∷ []) rest, after_semicolon-name n rest h)
of_element-print (array t) rest h = of_element-print t rest h

-- One parameter, read and measured.
read_param : List ℕ → Run (ℕ × List ℕ)
read_param d = do (c, d) ← next d; one_param c d

read_param-print :
    (t : JavaType) (rest : List ℕ) → IsType t → read_param (print t ++ rest) ≡ ok (words t, rest)
unfolding read_param one_param print
read_param-print (base byte) rest h = refl
read_param-print (base char) rest h = refl
read_param-print (base float) rest h = refl
read_param-print (base short) rest h = refl
read_param-print (base boolean) rest h = refl
read_param-print (base int) rest h = refl
read_param-print (base double) rest h = refl
read_param-print (base long) rest h = refl
read_param-print (class n) rest h =
    rw (append_assoc n (b';' ∷ []) rest, after_semicolon-name n rest h)
read_param-print (array t) rest h =
    let p : of_element (skip_arrays (print t ++ rest)) ≡ ok (1, rest) =
      ap of_element (skip_arrays-print t rest) ∙ of_element-print t rest h in
    unfold of_element in p

-- No type starts with the parenthesis that ends the parameters.
print-first : (t : JavaType) → (c : ℕ) × (d : List ℕ) × (print t ≡ c ∷ d) × ((c == b')') ≡ false)
unfolding print
print-first (base byte) = (b'B', [], refl, refl)
print-first (base char) = (b'C', [], refl, refl)
print-first (base float) = (b'F', [], refl, refl)
print-first (base short) = (b'S', [], refl, refl)
print-first (base boolean) = (b'Z', [], refl, refl)
print-first (base int) = (b'I', [], refl, refl)
print-first (base double) = (b'D', [], refl, refl)
print-first (base long) = (b'J', [], refl, refl)
print-first (class n) = (b'L', n ++ b';' ∷ [], refl, refl)
print-first (array t) = (b'[', print t, refl, refl)

-- One turn of each loop at a printed type.
one_turn :
    (t : JavaType) (rest : List ℕ)
    → IsType t
    → (c : ℕ) × (d : List ℕ) × (print t ++ rest ≡ c ∷ d)
      × ((c == b')') ≡ false)
      × (one_param c d ≡ ok (words t, rest))
unfolding read_param
one_turn t rest h =
    let (c, d, e, n) = print-first t in
    let p : print t ++ rest ≡ c ∷ (d ++ rest) = ap (λ l. l ++ rest) e in
    (
      c,
      d ++ rest,
      p,
      n,
      subst (λ l. read_param l ≡ ok (words t, rest)) p (read_param-print t rest h),
    )

words_loop-print :
    (ts : List JavaType) (fuel size : ℕ) (rest : List ℕ)
    → All IsType ts
    → size < 2 ^ 32
    → length ts < fuel
    → words_loop fuel size (print_all ts ++ b')' ∷ rest) ≡ ok ((size + all_words ts) % 2 ^ 32, rest)
unfolding words_loop print_all all_words
words_loop-print [] zero size rest h s f = absurd (omega arith)
words_loop-print [] (suc fuel) size rest h s f = ap (λ x. ok (x, rest)) (omega arith)
words_loop-print (t ∷ ts) zero size rest h s f = absurd (omega arith)
words_loop-print (t ∷ ts) (suc fuel) size rest (ht, h) s f =
    let (c, d, e, n, p) = one_turn t (print_all ts ++ b')' ∷ rest) ht in
    rw (append_assoc (print t) (print_all ts) (b')' ∷ rest), e, n, p)
      (words_loop-print ts fuel ((size + words t) % 2 ^ 32) rest h (omega arith) (omega arith)
        ∙ ap (λ x. ok (x, rest)) (omega arith))

abbrev counted : ℕ → ℕ → Run (ℕ × ℕ)
counted a b = ok (a, b)

both : {a b c d : ℕ} → a ≡ c → b ≡ d → counted a b ≡ counted c d
both p q = λ i. ok (p i, q i)

num_size_loop-print :
    (ts : List JavaType) (fuel num size : ℕ) (rest : List ℕ)
    → All IsType ts
    → num < 2 ^ 32
    → size < 2 ^ 32
    → length ts < fuel
    → num_size_loop fuel num size (print_all ts ++ b')' ∷ rest)
      ≡ ok ((num + length ts) % 2 ^ 32, (size + 4 * all_words ts) % 2 ^ 32)
unfolding num_size_loop print_all all_words
num_size_loop-print [] zero num size rest h u s f = absurd (omega arith)
num_size_loop-print [] (suc fuel) num size rest h u s f = both (omega arith) (omega arith)
num_size_loop-print (t ∷ ts) zero num size rest h u s f = absurd (omega arith)
num_size_loop-print (t ∷ ts) (suc fuel) num size rest (ht, h) u s f =
    let (c, d, e, n, p) = one_turn t (print_all ts ++ b')' ∷ rest) ht in
    rw (append_assoc (print t) (print_all ts) (b')' ∷ rest), e, n, p)
      (num_size_loop-print ts fuel ((num + 1) % 2 ^ 32) ((size + 4 * words t) % 2 ^ 32) rest h
          (omega arith) (omega arith) (omega arith)
        ∙ both (omega arith) (omega arith))

print_all-length : (ts : List JavaType) → length ts ≤ length (print_all ts)
unfolding print_all
print_all-length [] = omega arith
print_all-length (t ∷ ts) =
    let (c, d, e, _) = print-first t in
    omega (arith, ap length e, length-append (print t) (print_all ts), print_all-length ts)

-- `(parameters)return`, with the terminator.
abbrev pub descriptor_of : List JavaType → ℕ → List ℕ → List ℕ
descriptor_of ts ret more = b'(' ∷ print_all ts ++ b')' ∷ ret ∷ more

-- On the descriptor of any list of parameter types, both readers end and agree with the grammar: the
-- one returns the words of the parameters and the first byte of the return type, the other the number
-- of the parameters and four bytes for each word, modulo 2 ^ 32.
pub descriptor_info-print :
    (ts : List JavaType) (ret : ℕ) (more : List ℕ)
    → All IsType ts
    → (method_descriptor_get_param_info (descriptor_of ts ret more)
        ≡ ok (all_words ts % 2 ^ 32, ret))
      × (method_get_param_num_size (descriptor_of ts ret more)
          ≡ ok (length ts % 2 ^ 32, 4 * all_words ts % 2 ^ 32))
unfolding method_descriptor_get_param_info method_get_param_num_size
descriptor_info-print ts ret more h =
    let d = print_all ts ++ b')' ∷ ret ∷ more in
    let fits : length ts < suc (length d) =
      omega (arith, print_all-length ts, length-append (print_all ts) (b')' ∷ ret ∷ more)) in
    let a = words_loop-print ts (suc (length d)) 0 (ret ∷ more) h (omega arith) fits in
    let b =
      num_size_loop-print ts (suc (length d)) 0 0 (ret ∷ more) h (omega arith) (omega arith) fits in
    (rw a (both (omega arith) refl), rw b (both (omega arith) (omega arith)))
