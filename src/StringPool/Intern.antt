-- ===== src/StringPool/Intern.antt =====
-- The string pool (korp_src/class/string_pool.cpp) refines a map from contents to addresses.
use mini_jvm.Common.{
  length-replicate, get_or-replicate, ◌↔◌, ℕ, ◌+◌, ◌≤◌, ◌^◌, ◌≡◌, refl, List, [], ◌∷◌, false,
  if◌then◌else◌, length, none, some, Option-cases, subst, lt→ltb, ◌%◌, sym, ◌∙◌, ◌⊎◌, length-set,
  take-length, ok, ap, set, ==_iff, ◌==◌, ◌>>=◌, arith, Bool-cases, inl, inr,
}
use mini_jvm.Hash.{
  str_eq, str_eq→eq, str_eq_refl, get_chars_hash, hash_table_size, chain_of, bucket_at-chain,
  chain_of-set,
}
use mini_jvm.StringPool.{
  KString, StringPool, is_match, find_string, new_string, string_pool_lookup, new_string_pool,
}
use mini_jvm.StringPool.View.{
  IsShort, view, count_string, IsValid, match-str_eq, count-find, view-byte,
}

-- `spool` has become `spool'`, which holds `s` under `chars`, and all else as before.
pub record Interned (spool : StringPool) (chars : List ℕ) (s : KString) (spool' : StringPool)
    : Type 0 where
  pub valid : IsValid spool'
  pub byte : s.byte ≡ chars
  pub views : (d : List ℕ) → view spool' d ≡ (if str_eq chars d then some s else view spool d)

pub hash_apart :
    (c d : List ℕ) → (get_chars_hash c == get_chars_hash d) ≡ false → str_eq c d ≡ false
hash_apart c d h = elim (Bool-cases (str_eq c d)) [
  | inl e ↦ ground (arith, ap get_chars_hash (str_eq→eq c d e))
  | inr e ↦ e
]

count-cons :
    (d : List ℕ) (s : KString) (c : List KString)
    → count_string d (s ∷ c) ≡ (if is_match d s then 1 else 0) + count_string d c
unfolding count_string
count-cons d s c = refl

new_string-made :
    (p : StringPool) (c : List ℕ)
    → IsShort c
    → new_string p c ≡ ok (record { addr = p.brk; byte = c }, record p { brk = p.brk + 1 })
unfolding new_string
new_string-made p c short =
    let e : length c % 2 ^ 16 ≡ length c = omega arith in
    rw (e, lt→ltb (length c + 1) (2 ^ 15) short, take-length c)

module _ (p : StringPool) (v : IsValid p) (c : List ℕ) (short : IsShort c) where
  abbrev made : KString
  made = record { addr = p.brk; byte = c }

  abbrev grown : StringPool
  grown = record {
    bucket = set p.bucket (get_chars_hash c) (made ∷ chain_of p.bucket c);
    brk = p.brk + 1;
  }

  view-grown : (d : List ℕ) → view grown d ≡ (if str_eq c d then some made else view p d)
  unfolding view find_string
  view-grown d = elim (Bool-cases (get_chars_hash c == get_chars_hash d)) [
    | inl e ↦ rw (
      chain_of-set p.bucket c d (made ∷ chain_of p.bucket c) v.width,
      e,
      match-str_eq d made short,
      (==_iff (get_chars_hash c) (get_chars_hash d)).0 e,
    )
    | inr e ↦
        rw (chain_of-set p.bucket c d (made ∷ chain_of p.bucket c) v.width, e, hash_apart c d e)
  ]

  absent_at : view p c ≡ none → (d : List ℕ) → c ≡ d → count_string d (chain_of p.bucket c) ≡ 0
  unfolding view
  absent_at absent d e =
      subst (λ x. count_string x (chain_of p.bucket c) ≡ 0) e
        (count-find c (chain_of p.bucket c) absent)

  count-grown : view p c ≡ none → (d : List ℕ) → count_string d (chain_of grown.bucket d) ≤ 1
  count-grown absent d = elim (Bool-cases (get_chars_hash c == get_chars_hash d)) [
    | inl e ↦ elim (Bool-cases (str_eq c d)) [
      | inl same ↦
          rw
            (
              chain_of-set p.bucket c d (made ∷ chain_of p.bucket c) v.width,
              e,
              count-cons,
              match-str_eq d made short,
              same,
            )
            (omega (arith, absent_at absent d (str_eq→eq c d same)))
      | inr differ ↦
          rw
            (
              chain_of-set p.bucket c d (made ∷ chain_of p.bucket c) v.width,
              e,
              count-cons,
              match-str_eq d made short,
              differ,
              (==_iff (get_chars_hash c) (get_chars_hash d)).0 e,
            )
            (omega (arith, v.once d))
    ]
    | inr e ↦ rw (chain_of-set p.bucket c d (made ∷ chain_of p.bucket c) v.width, e) (v.once d)
  ]

  view-grown_cases :
      (d : List ℕ) (s : KString)
      → view grown d ≡ some s
      → ((c ≡ d) × (s ≡ made)) ⊎ (view p d ≡ some s)
  view-grown_cases d s h = elim (Bool-cases (str_eq c d)) [
    | inl e ↦ let q : view grown d ≡ some made = rw e at (view-grown d) in inl (str_eq→eq c d e, cc)
    | inr e ↦ let q : view grown d ≡ view p d = rw e at (view-grown d) in inr (sym q ∙ h)
  ]

  grown-IsValid : view p c ≡ none → IsValid grown
  grown-IsValid absent = record {
    width = length-set p.bucket (get_chars_hash c) (made ∷ chain_of p.bucket c) ∙ v.width;
    once = count-grown absent;
    fresh = λ d s h. elim (view-grown_cases d s h) [
      | inl (_, e) ↦ rw e (omega arith)
      | inr old ↦ omega (arith, v.fresh d s old)
    ];
    distinct = λ a b s t hs ht e. elim (view-grown_cases a s hs) [
      | inl (ca, es) ↦ elim (view-grown_cases b t ht) [
        | inl (cb, et) ↦ sym ca ∙ cb
        | inr ot ↦ absurd (omega (arith, v.fresh b t ot, ap (λ (k : KString). k.addr) es))
      ]
      | inr os ↦ elim (view-grown_cases b t ht) [
        | inl (cb, et) ↦ absurd (omega (arith, v.fresh a s os, ap (λ (k : KString). k.addr) et))
        | inr ot ↦ v.distinct a b s t os ot e
      ]
    ];
  }

  kept :
      (s : KString)
      → view p c ≡ some s
      → (d : List ℕ) → view p d ≡ (if str_eq c d then some s else view p d)
  kept s h d = elim (Bool-cases (str_eq c d)) [ inl e ↦ rw (e, ← str_eq→eq c d e) h | inr e ↦ rw e ]

  -- On a valid pool a lookup of a short string never faults: it returns the string with these
  -- contents and keeps all that the pool held; contents that the pool had are returned as the
  -- object that it had.
  pub lookup-Interned :
      (s : KString) × (p' : StringPool) × (string_pool_lookup p c ≡ ok (s, p')) × Interned p c s p'
  unfolding string_pool_lookup view
  lookup-Interned = elim (Option-cases (view p c)) [
    | inl e ↦ (
      made,
      grown,
      let f : find_string c (chain_of p.bucket c) ≡ none = e in
          rw (bucket_at-chain p.bucket c v.width, ◌>>=◌, f, f, new_string-made p c short),
      record { valid = grown-IsValid e; byte = refl; views = view-grown },
    )
    | inr (s, e) ↦ (
      s,
      p,
      let f : find_string c (chain_of p.bucket c) ≡ some s = e in
          rw (bucket_at-chain p.bucket c v.width, ◌>>=◌, f),
      record { valid = v; byte = view-byte p c s e; views = kept s e },
    )
  ]

-- The empty pool holds nothing, and is valid.
pub new-IsValid : IsValid new_string_pool
unfolding new_string_pool view count_string find_string
new-IsValid = record {
  width = length-replicate {A = List KString} hash_table_size [];
  once = λ d.
      rw (get_or-replicate {A = List KString} hash_table_size (get_chars_hash d) []) (omega arith);
  fresh = λ d s h. absurd (new-absent d s h);
  distinct = λ a b s t h _ _. absurd (new-absent a s h);
}
  where
    new-absent : (d : List ℕ) (s : KString) → view new_string_pool d ≡ some s → ⊥
    new-absent d s h =
        cc (rw (get_or-replicate {A = List KString} hash_table_size (get_chars_hash d) []) at h)

lookup-found :
    (p : StringPool) (c : List ℕ) (s : KString)
    → IsValid p
    → view p c ≡ some s
    → string_pool_lookup p c ≡ ok (s, p)
unfolding string_pool_lookup view
lookup-found p c s v e =
    let f : find_string c (chain_of p.bucket c) ≡ some s = e in
    rw (bucket_at-chain p.bucket c v.width, ◌>>=◌, f)

-- On a valid pool, two lookups in turn, of any short contents, return the same address exactly if
-- the contents are equal, and a third one, of the first contents again, returns the first object
-- and changes nothing: what lets the rest of the machine compare strings by address.
pub lookup-addr_iff :
    (p : StringPool) (a b : List ℕ)
    → IsValid p
    → IsShort a
    → IsShort b
    → (s : KString) × (t : KString) × (p' : StringPool) × (p'' : StringPool) × (string_pool_lookup p
          a
        ≡ ok (s, p'))
      × (string_pool_lookup p' b ≡ ok (t, p''))
      × ((s.addr ≡ t.addr) ↔ (a ≡ b))
      × (string_pool_lookup p'' a ≡ ok (s, p''))
lookup-addr_iff p a b v ha hb =
    let (s, p', run, i) = lookup-Interned p v a ha in
    let (t, p'', run', j) = lookup-Interned p' i.valid b hb in
    let at_b : view p'' b ≡ some t = rw (str_eq_refl b) at (j.views b) in
    let at_a : view p' a ≡ some s = rw (str_eq_refl a) at (i.views a) in
    let same : a ≡ b → some s ≡ some t = λ e.
      let found : view p' b ≡ some s = subst (λ d. view p' d ≡ some s) e at_a in
      cc (lookup-found p' b s i.valid found, run') in
    let again : view p'' a ≡ some s = elim (Bool-cases (str_eq b a)) [
      | inl e ↦ rw e at (j.views a) ∙ sym (same (sym (str_eq→eq b a e)))
      | inr e ↦ rw e at (j.views a) ∙ at_a
    ] in
    (
      s,
      t,
      p',
      p'',
      run,
      run',
      (λ e. j.valid.distinct a b s t again at_b e, λ e. cc (same e)),
      lookup-found p'' a s j.valid again,
    )
