-- ===== src/StringPool/Removal.antt =====
-- Removal from the string pool (korp_src/class/string_pool.cpp).
use mini_jvm.Common.{
  ℕ, ◌≤◌, ◌≡◌, List, [], ◌∷◌, if◌then◌else◌, none, some, sym, ◌∙◌, length-set, ok, set, ==_iff,
  ◌==◌, arith, Bool-cases, inl, inr,
}
use mini_jvm.Hash.{
  str_eq, str_eq→eq, str_eq_refl, get_chars_hash, chain_of, bucket_at-chain, chain_of-set,
}
use mini_jvm.StringPool.{KString, StringPool, find_string, unlink_string, string_pool_remove}
use mini_jvm.StringPool.View.{view, count_string, IsValid, match→eq, find-count}
use mini_jvm.StringPool.Intern.{hash_apart}

unlink-find :
    (c d : List ℕ) (l : List KString)
    → count_string d l ≤ 1
    → find_string d (unlink_string c l) ≡ (if str_eq c d then none else find_string d l)
unfolding find_string unlink_string count_string
unlink-find c d [] h = ground arith
unlink-find c d (s ∷ l) h = ground (
  arith,
  str_eq→eq c d,
  match→eq c s,
  match→eq d s,
  str_eq_refl d,
  find-count d l,
  unlink-find c d l,
)

unlink-count :
    (c d : List ℕ) (l : List KString) → count_string d (unlink_string c l) ≤ count_string d l
unfolding unlink_string count_string
unlink-count c d [] = omega arith
unlink-count c d (s ∷ l) = ground (arith, unlink-count c d l)

-- `spool` has become `spool'`, in which `chars` is gone and all else is as before.
pub record Removed (spool : StringPool) (chars : List ℕ) (spool' : StringPool) : Type 0 where
  pub valid : IsValid spool'
  pub views : (d : List ℕ) → view spool' d ≡ (if str_eq chars d then none else view spool d)

module _ (p : StringPool) (v : IsValid p) (s : KString) where
  abbrev cut : StringPool
  cut = record p {
    bucket = set p.bucket (get_chars_hash s.byte) (unlink_string s.byte (chain_of p.bucket s.byte));
  }

  view-cut : (d : List ℕ) → view cut d ≡ (if str_eq s.byte d then none else view p d)
  unfolding view
  view-cut d = elim (Bool-cases (get_chars_hash s.byte == get_chars_hash d)) [
    | inl e ↦
        rw
          (
            chain_of-set p.bucket s.byte d (unlink_string s.byte (chain_of p.bucket s.byte))
                v.width,
            e,
            (==_iff (get_chars_hash s.byte) (get_chars_hash d)).0 e,
          )
          (unlink-find s.byte d (chain_of p.bucket d) (v.once d))
    | inr e ↦ rw (
      chain_of-set p.bucket s.byte d (unlink_string s.byte (chain_of p.bucket s.byte)) v.width,
      e,
      hash_apart s.byte d e,
    )
  ]

  count-cut : (d : List ℕ) → count_string d (chain_of cut.bucket d) ≤ 1
  count-cut d = elim (Bool-cases (get_chars_hash s.byte == get_chars_hash d)) [
    | inl e ↦
        rw
          (
            chain_of-set p.bucket s.byte d (unlink_string s.byte (chain_of p.bucket s.byte))
                v.width,
            e,
            (==_iff (get_chars_hash s.byte) (get_chars_hash d)).0 e,
          )
          (omega (arith, v.once d, unlink-count s.byte d (chain_of p.bucket d)))
    | inr e ↦
        rw
          (
            chain_of-set p.bucket s.byte d (unlink_string s.byte (chain_of p.bucket s.byte))
                v.width,
            e,
          )
          (v.once d)
  ]

  view-cut_old : (d : List ℕ) (t : KString) → view cut d ≡ some t → view p d ≡ some t
  view-cut_old d t h = elim (Bool-cases (str_eq s.byte d)) [
    | inl e ↦ let q : view cut d ≡ none = rw e at (view-cut d) in cc
    | inr e ↦ let q : view cut d ≡ view p d = rw e at (view-cut d) in sym q ∙ h
  ]

  -- `string_pool_remove` never faults on a valid pool, forgets exactly the contents of its
  -- argument, and keeps the pool valid.
  pub remove-Removed : (p' : StringPool) × (string_pool_remove p s ≡ ok p') × Removed p s.byte p'
  unfolding string_pool_remove
  remove-Removed = (
    cut,
    rw (bucket_at-chain p.bucket s.byte v.width),
    record {
      valid = record {
        width =
            length-set p.bucket (get_chars_hash s.byte)
              (unlink_string s.byte (chain_of p.bucket s.byte))
            ∙ v.width;
        once = count-cut;
        fresh = λ d t h. v.fresh d t (view-cut_old d t h);
        distinct = λ a b t u h k. v.distinct a b t u (view-cut_old a t h) (view-cut_old b u k);
      };
      views = view-cut;
    },
  )
