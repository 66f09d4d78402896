-- ===== src/ClassTable/Refine.antt =====
-- A class table (korp_src/class/class_table.cpp) refines a map from names to classes.
use mini_jvm.Common.{
  ℕ, ◌+◌, ◌≤◌, ◌≡◌, refl, subst, sym, ap, ◌∙◌, List, [], ◌∷◌, true, false, if◌then◌else◌, length,
  ◌==◌, ==_iff, set, length-set, length-replicate, get_or-replicate, Option, none, some,
  Option-cases, ok, ◌>>=◌, arith, Bool-cases, inl, inr,
}
use mini_jvm.Hash.{get_chars_hash, hash_table_size, chain_of, bucket_at-chain, chain_of-set}
use mini_jvm.ClassTable.{
  Table, find_class, unlink_class, class_table_search, class_table_insert, class_table_remove,
  new_class_table,
}

-- The first class of a name stays.
abbrev pub first_of_two : Option ℕ → ℕ → Option ℕ
first_of_two none c = some c
first_of_two (some d) c = some d

module _ (string_to_chars : ℕ → List ℕ) (name : ℕ → ℕ) where
  -- What a table holds under a name.
  pub view : Table → ℕ → Option ℕ
  view t n = find_class string_to_chars name n (chain_of t (string_to_chars n))

  pub count_class : ℕ → List ℕ → ℕ
  count_class n [] = 0
  count_class n (c ∷ l) = (if n == name c then 1 else 0) + count_class n l

  -- Every bucket is there, and no name has two entries.
  pub record IsValid (t : Table) : Type 0 where
    pub width : length t ≡ hash_table_size
    pub once : (n : ℕ) → count_class n (chain_of t (string_to_chars n)) ≤ 1

  -- A valid table that reads as `f`.
  pub record Models (f : ℕ → Option ℕ) (t : Table) : Type 0 where
    pub valid : IsValid t
    pub reads : (n : ℕ) → view t n ≡ f n

  count-find :
      (n : ℕ) (l : List ℕ) → find_class string_to_chars name n l ≡ none → count_class n l ≡ 0
  unfolding find_class count_class
  count-find n [] h = refl
  count-find n (c ∷ l) h = ground (arith, count-find n l)

  find-count :
      (n : ℕ) (l : List ℕ) → count_class n l ≡ 0 → find_class string_to_chars name n l ≡ none
  unfolding find_class count_class
  find-count n [] h = refl
  find-count n (c ∷ l) h = ground (arith, find-count n l)

  unlink-find :
      (m n : ℕ) (l : List ℕ)
      → count_class n l ≤ 1
      → find_class string_to_chars name n (unlink_class string_to_chars name m l)
        ≡ (if n == m then none else find_class string_to_chars name n l)
  unfolding find_class unlink_class count_class
  unlink-find m n [] h = ground arith
  unlink-find m n (c ∷ l) h = ground (arith, find-count n l, unlink-find m n l)

  unlink-count :
      (m n : ℕ) (l : List ℕ)
      → count_class n (unlink_class string_to_chars name m l) ≤ count_class n l
  unfolding unlink_class count_class
  unlink-count m n [] = omega arith
  unlink-count m n (c ∷ l) = ground (arith, unlink-count m n l)

  -- A fresh table holds no class.
  pub new-Models : Models (λ n. none) new_class_table
  unfolding new_class_table view find_class count_class
  new-Models = record {
    valid = record {
      width = length-replicate {A = List ℕ} hash_table_size [];
      once = λ n.
          rw (get_or-replicate {A = List ℕ} hash_table_size (get_chars_hash (string_to_chars n)) [])
            (omega arith);
    };
    reads = λ n.
        rw (get_or-replicate {A = List ℕ} hash_table_size (get_chars_hash (string_to_chars n)) []);
  }

  -- On a valid table the search does not fault, and reads the map.
  pub search-view :
      (t : Table) (n : ℕ) → IsValid t → class_table_search string_to_chars name t n ≡ ok (view t n)
  unfolding class_table_search view
  search-view t n v = rw (bucket_at-chain t (string_to_chars n) v.width)

  module _ (t : Table) (v : IsValid t) (c : ℕ) where
    abbrev home : List ℕ
    home = chain_of t (string_to_chars (name c))

    -- Both writes replace the chain of the class's name by some `l`, which reads as `f` under that
    -- name and as the old chain under the others.
    set-Models :
        (l : List ℕ) (f : ℕ → Option ℕ)
        → ((n : ℕ)
            → chain_of t (string_to_chars n) ≡ home
            → (find_class string_to_chars name n l
                ≡ (if n == name c then f n else find_class string_to_chars name n home))
              × (count_class n l ≤ 1))
        → Models
            (λ n. if n == name c then f n else view t n)
            (set t (get_chars_hash (string_to_chars (name c))) l)
    unfolding view
    set-Models l f h = record {
      valid = record {
        width = length-set t (get_chars_hash (string_to_chars (name c))) l ∙ v.width;
        once = λ n.
            elim (Bool-cases
              (get_chars_hash (string_to_chars (name c)) == get_chars_hash (string_to_chars n))) [
                | inl e ↦
                    rw (chain_of-set t (string_to_chars (name c)) (string_to_chars n) l v.width, e)
                      (h n (same_chain n e)).1
                | inr e ↦
                    rw (chain_of-set t (string_to_chars (name c)) (string_to_chars n) l v.width, e)
                      (v.once n)
              ];
      };
      reads = λ n.
          elim (Bool-cases
            (get_chars_hash (string_to_chars (name c)) == get_chars_hash (string_to_chars n))) [
              | inl e ↦
                  rw
                    (
                      chain_of-set t (string_to_chars (name c)) (string_to_chars n) l v.width,
                      e,
                      same_chain n e,
                    )
                    (h n (same_chain n e)).0
              | inr e ↦ rw (
                chain_of-set t (string_to_chars (name c)) (string_to_chars n) l v.width,
                e,
                other_name n e,
              )
            ];
    }
      where
        same_chain :
            (n : ℕ)
            → (get_chars_hash (string_to_chars (name c)) == get_chars_hash (string_to_chars n))
              ≡ true
            → chain_of t (string_to_chars n) ≡ home
        same_chain n e = rw (
            (==_iff (get_chars_hash (string_to_chars (name c)))
                (get_chars_hash (string_to_chars n))).0
              e)

        other_name :
            (n : ℕ)
            → (get_chars_hash (string_to_chars (name c)) == get_chars_hash (string_to_chars n))
              ≡ false
            → (n == name c) ≡ false
        other_name n e = elim (Bool-cases (n == name c)) [
          | inl z ↦
              ground (
                arith,
                ap (λ (x : ℕ). get_chars_hash (string_to_chars x)) ((==_iff n (name c)).0 z),
              )
          | inr z ↦ z
        ]

    keep_first :
        (d : ℕ)
        → view t (name c) ≡ some d
        → (n : ℕ) → view t n ≡ (if n == name c then first_of_two (view t n) c else view t n)
    keep_first d e n = elim (Bool-cases (n == name c)) [
      | inl z ↦
          let g : view t n ≡ some d =
            subst (λ m. view t m ≡ some d) (sym ((==_iff n (name c)).0 z)) e in
          rw (z, g)
      | inr z ↦ rw z
    ]

    insert_find :
        view t (name c) ≡ none
        → (n : ℕ)
        → find_class string_to_chars name n (c ∷ home) ≡ (
            if n == name c
            then first_of_two (view t n) c
            else find_class string_to_chars name n home)
    unfolding find_class
    insert_find e n = elim (Bool-cases (n == name c)) [
      | inl z ↦
          let g : view t n ≡ none =
            subst (λ m. view t m ≡ none) (sym ((==_iff n (name c)).0 z)) e in
          rw (z, g)
      | inr z ↦ rw z
    ]

    insert_count :
        view t (name c) ≡ none
        → (n : ℕ) → chain_of t (string_to_chars n) ≡ home
        → count_class n (c ∷ home) ≤ 1
    unfolding count_class view
    insert_count e n same = elim (Bool-cases (n == name c)) [
      | inl z ↦
          let g : count_class n home ≡ 0 =
            subst (λ m. count_class m home ≡ 0) (sym ((==_iff n (name c)).0 z))
              (count-find (name c) home e) in
          rw z (omega (arith, g))
      | inr z ↦
          let once : count_class n home ≤ 1 = rw same at (v.once n) in rw z (omega (arith, once))
    ]

    -- `class_table_insert` on a valid table does not fault; the class enters only if its name was
    -- free, so that the first class of a name stays, and every other name reads as before.
    pub insert-Models :
        (t' : Table) × (class_table_insert string_to_chars name t c ≡ ok t')
        × Models (λ n. if n == name c then first_of_two (view t n) c else view t n) t'
    unfolding class_table_insert view
    insert-Models = elim (Option-cases (view t (name c))) [
      | inl e ↦
          let f : find_class string_to_chars name (name c) home ≡ none = e in
          (
            _,
            rw (bucket_at-chain t (string_to_chars (name c)) v.width, ◌>>=◌, f),
            set-Models (c ∷ home) (λ n. first_of_two (view t n) c)
                (λ n same. (insert_find f n, insert_count f n same)),
          )
      | inr (d, e) ↦
          let f : find_class string_to_chars name (name c) home ≡ some d = e in
          (
            t,
            rw (bucket_at-chain t (string_to_chars (name c)) v.width, ◌>>=◌, f),
            record { valid = v; reads = keep_first d e },
          )
    ]

    -- `class_table_remove` on a valid table does not fault, frees the class's name and keeps every
    -- other name.
    pub remove-Models :
        (t' : Table) × (class_table_remove string_to_chars name t c ≡ ok t')
        × Models (λ n. if n == name c then none else view t n) t'
    unfolding class_table_remove
    remove-Models = (
      _,
      rw (bucket_at-chain t (string_to_chars (name c)) v.width),
      set-Models (unlink_class string_to_chars name (name c) home) (λ n. none)
          (λ n same.
            let once : count_class n home ≤ 1 = rw same at (v.once n) in
            (unlink-find (name c) n home once, omega (arith, unlink-count (name c) n home))),
    )
