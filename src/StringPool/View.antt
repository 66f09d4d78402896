-- ===== src/StringPool/View.antt =====
-- The string pool (korp_src/class/string_pool.cpp) as a map from contents to strings.
use mini_jvm.Common.{
  ℕ, ◌+◌, ◌≤◌, ◌<◌, ◌^◌, ◌≡◌, refl, List, [], ◌∷◌, true, if◌then◌else◌, length, Option, none, some,
  ap, arith, Bool-cases, inl, inr,
}
use mini_jvm.Hash.{str_eq, str_eq→eq, hash_table_size, chain_of}
use mini_jvm.StringPool.{KString, StringPool, is_match, find_string}

-- Contents that the 15-bit array length of a header can describe.
abbrev pub IsShort : List ℕ → Type 0
IsShort chars = length chars + 1 < 2 ^ 15

-- What the pool holds for some contents: the first match in their chain.
unfoldable pub view : StringPool → List ℕ → Option KString
view p d = find_string d (chain_of p.bucket d)

unfoldable pub count_string : List ℕ → List KString → ℕ
count_string d [] = 0
count_string d (s ∷ c) = (if is_match d s then 1 else 0) + count_string d c

-- Every bucket is there, no contents are stored twice, and no address is used for two contents.
pub record IsValid (p : StringPool) : Type 0 where
  pub width : length p.bucket ≡ hash_table_size
  pub once : (d : List ℕ) → count_string d (chain_of p.bucket d) ≤ 1
  pub fresh : (d : List ℕ) (s : KString) → view p d ≡ some s → s.addr < p.brk
  pub distinct :
      (a b : List ℕ) (s t : KString)
      → view p a ≡ some s
      → view p b ≡ some t
      → s.addr ≡ t.addr
      → a ≡ b

pub match→eq : (d : List ℕ) (s : KString) → is_match d s ≡ true → s.byte ≡ d
unfolding is_match
match→eq d s h = ground (arith, str_eq→eq s.byte d)

-- For a short string the comparison of lengths adds nothing.
pub match-str_eq : (d : List ℕ) (s : KString) → IsShort s.byte → is_match d s ≡ str_eq s.byte d
unfolding is_match
match-str_eq d s h = elim (Bool-cases (str_eq s.byte d)) [
  | inl e ↦ rw e (ground (arith, ap length (str_eq→eq s.byte d e)))
  | inr e ↦ rw e (ground arith)
]

find-match :
    (d : List ℕ) (c : List KString) (s : KString) → find_string d c ≡ some s → is_match d s ≡ true
unfolding find_string
find-match d [] s h = cc
find-match d (t ∷ c) s h = ground (arith, find-match d c s)

pub count-find : (d : List ℕ) (c : List KString) → find_string d c ≡ none → count_string d c ≡ 0
unfolding find_string count_string
count-find d [] h = refl
count-find d (t ∷ c) h = ground (arith, count-find d c)

pub find-count : (d : List ℕ) (c : List KString) → count_string d c ≡ 0 → find_string d c ≡ none
unfolding find_string count_string
find-count d [] h = refl
find-count d (t ∷ c) h = ground (arith, find-count d c)

pub view-byte : (p : StringPool) (d : List ℕ) (s : KString) → view p d ≡ some s → s.byte ≡ d
unfolding view
view-byte p d s h = match→eq d s (find-match d _ s h)
