-- ===== src/Hash.antt =====
-- Hashing and comparison of C strings (korp_src/utils/utils.cpp), and the bucket arrays of the
-- string pool and of the class tables. A C string is the list of its bytes, here without the
-- terminator.
use mini_jvm.Common.{
  ℕ, ◌+◌, ◌*◌, ◌%◌, ◌^◌, ◌<◌, ◌≡◌, refl, List, [], ◌∷◌, Bool, true, false, ◌&&◌, ◌==◌, ==_iff,
  length, get_elem?, get_or, set, get_or-set_self, get_or-set_ne, get_elem?-get_or, Run, ok, deref,
  out_of_bounds, arith, Bool-cases, if◌then◌else◌, inl, inr,
}

abbrev pub hash_table_size : ℕ
hash_table_size = 359

-- `while ((c = *charp++) != '\0') key = (key+c)<<1;` with a `uint16 key`
unfoldable pub hash_loop : ℕ → List ℕ → ℕ
hash_loop key [] = key
hash_loop key (c ∷ chars) = hash_loop ((key + c) * 2 % 2 ^ 16) chars

unfoldable pub get_chars_hash : List ℕ → ℕ
unfolding hash_loop
get_chars_hash chars = hash_loop 0 chars % hash_table_size

-- `strcmp(s, t) == 0`
unfoldable pub str_eq : List ℕ → List ℕ → Bool
str_eq [] [] = true
str_eq [] (c ∷ t) = false
str_eq (b ∷ s) [] = false
str_eq (b ∷ s) (c ∷ t) = b == c && str_eq s t

pub get_chars_hash-lt : (chars : List ℕ) → get_chars_hash chars < hash_table_size
unfolding get_chars_hash
get_chars_hash-lt chars = omega arith

pub str_eq→eq : (s t : List ℕ) → str_eq s t ≡ true → s ≡ t
unfolding str_eq
str_eq→eq [] [] h = refl
str_eq→eq [] (c ∷ t) h = cc
str_eq→eq (b ∷ s) [] h = cc
str_eq→eq (b ∷ s) (c ∷ t) h = ground (arith, str_eq→eq s t)

pub str_eq_refl : (s : List ℕ) → str_eq s s ≡ true
unfolding str_eq
str_eq_refl [] = refl
str_eq_refl (b ∷ s) = ground (arith, str_eq_refl s)

-- `table->bucket[key]`, read
unfoldable pub bucket_at {ℓ} : {E : Type ℓ} → List (List E) → ℕ → Run (List E)
bucket_at bucket key = deref out_of_bounds (get_elem? bucket key)

-- The chain in which the code looks for `chars`.
abbrev pub chain_of {ℓ} : {E : Type ℓ} → List (List E) → List ℕ → List E
chain_of bucket chars = get_or bucket (get_chars_hash chars) []

module _ {ℓ} {E : Type ℓ} where
  pub bucket_at-chain :
      (bucket : List (List E)) (chars : List ℕ)
      → length bucket ≡ hash_table_size
      → bucket_at bucket (get_chars_hash chars) ≡ ok (chain_of bucket chars)
  unfolding bucket_at
  bucket_at-chain bucket chars n =
      let p =
        get_elem?-get_or bucket (get_chars_hash chars) []
          (omega (arith, get_chars_hash-lt chars)) in
      rw p

  -- A chain that replaces the one of `chars` is read back under the same hash, and under no other.
  pub chain_of-set :
      (bucket : List (List E)) (chars other : List ℕ) (c : List E)
      → length bucket ≡ hash_table_size
      → chain_of (set bucket (get_chars_hash chars) c) other
        ≡ (if get_chars_hash chars == get_chars_hash other then c else chain_of bucket other)
  chain_of-set bucket chars other c n =
      elim (Bool-cases (get_chars_hash chars == get_chars_hash other)) [
        | inl e ↦
            rw (e, ← (==_iff (get_chars_hash chars) (get_chars_hash other)).0 e)
              (get_or-set_self bucket _ c [] (omega (arith, get_chars_hash-lt chars)))
        | inr e ↦ rw e (get_or-set_ne bucket _ _ c [] (ground arith))
      ]
