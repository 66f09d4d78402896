-- ===== src/Prepare/Interfaces.antt =====
-- The removal of duplicates in `prepare_interfaces` (korp_src/class/class_prepare.cpp), over the
-- addresses of the interfaces.
use mini_jvm.Common.{
  ℕ, zero, suc, ◌+◌, ◌≤◌, ◌<◌, ◌≡◌, refl, subst, List, [], ◌∷◌, true, ◌==◌, ==_iff, if◌then◌else◌,
  length, ltb, get_elem?, set, take, take-length, replicate, arith, Bool-cases, inl, inr, some, Run,
  ok, fault, out_of_bounds, out_of_fuel, ◌>>=◌, deref,
}

abbrev at : List ℕ → ℕ → Run ℕ
at table i = deref out_of_bounds (get_elem? table i)

-- `while ( table[j] == table[--last] );`, where `v` is `table[j]`: from index 0 the unsigned `last`
-- wraps around.
unfoldable pub last_other : List ℕ → ℕ → ℕ → Run ℕ
last_other table v zero = fault out_of_bounds
last_other table v (suc last) = do
  t ← at table last
  if v == t then last_other table v last else ok last

-- The loop over `j`, with fuel.
unfoldable pub remove_copies : ℕ → List ℕ → ℕ → ℕ → ℕ → Run (List ℕ × ℕ)
unfolding last_other
remove_copies zero table i j last = fault out_of_fuel
remove_copies (suc fuel) table i j last =
    let turn = (do
      a ← at table i
      b ← at table j
      if a == b
          then (do
            last ← last_other table b last
            t ← at table last
            remove_copies fuel (if j == last then table else set table j t) i (suc j) last)
          else remove_copies fuel table i (suc j) last) in
    if ltb j last then turn else ok (table, last)

-- The loop over `i`, and the entries that are left.
unfoldable pub eliminate_duplicates : ℕ → List ℕ → ℕ → ℕ → Run (List ℕ)
unfolding remove_copies
eliminate_duplicates zero table i last = fault out_of_fuel
eliminate_duplicates (suc fuel) table i last =
    let turn = (do
      (table, last) ← remove_copies (suc (length table)) table i (suc i) last
      eliminate_duplicates fuel table (suc i) last) in
    if ltb i last then turn else ok (take last table)

abbrev pub Distinct : List ℕ → Type 0
Distinct table = (i j x : ℕ) → get_elem? table i ≡ some x → get_elem? table j ≡ some x → i ≡ j

get-some : (xs : List ℕ) (i : ℕ) → i < length xs → (e : ℕ) × (get_elem? xs i ≡ some e)
get-some [] i h = absurd (omega arith)
get-some (x ∷ xs) zero h = (x, refl)
get-some (x ∷ xs) (suc i) h = get-some xs i (omega arith)

module _ (table : List ℕ) (distinct : Distinct table) where
  remove_copies-Distinct :
      (fuel i j : ℕ)
      → i < j
      → length table < j + fuel
      → j ≤ length table
      → remove_copies fuel table i j (length table) ≡ ok (table, length table)
  unfolding remove_copies
  remove_copies-Distinct zero i j lt f le = absurd (omega arith)
  remove_copies-Distinct (suc fuel) i j lt f le = elim (Bool-cases (ltb j (length table))) [
    | inr b ↦ rw b
    | inl b ↦
        let jl : j < length table = ground arith in
        let (a, ea) = get-some table i (omega arith) in
        let (c, ec) = get-some table j jl in
        elim (Bool-cases (a == c)) [
          | inl s ↦
              let q : a ≡ c = (==_iff a c).0 s in
              let p : i ≡ j = distinct i j c (subst (λ x. get_elem? table i ≡ some x) q ea) ec in
              absurd (omega (arith, p))
          | inr s ↦
              rw (b, ea, ec, s)
                (remove_copies-Distinct fuel i (suc j) (omega arith) (omega arith) (omega arith))
        ]
  ]

  eliminate_lem :
      (fuel i : ℕ)
      → length table < i + fuel
      → i ≤ length table
      → eliminate_duplicates fuel table i (length table) ≡ ok table
  unfolding eliminate_duplicates
  eliminate_lem zero i f le = absurd (omega arith)
  eliminate_lem (suc fuel) i f le = elim (Bool-cases (ltb i (length table))) [
    | inr b ↦ rw (b, take-length table)
    | inl b ↦
        let il : i < length table = ground arith in
        rw
          (
            b,
            remove_copies-Distinct (suc (length table)) i (suc i) (omega arith) (omega arith)
                (omega arith),
          )
          (eliminate_lem fuel (suc i) (omega arith) (omega arith))
  ]

-- A table without duplicates is left as it is, whatever its length; the fuel is enough.
pub eliminate_duplicates-Distinct :
    (table : List ℕ)
    → Distinct table
    → eliminate_duplicates (suc (length table)) table 0 (length table) ≡ ok table
eliminate_duplicates-Distinct table d =
    eliminate_lem table d (suc (length table)) 0 (omega arith) (omega arith)

get-replicate : (n a i : ℕ) → i < n → get_elem? (replicate n a) i ≡ some a
get-replicate zero a i h = absurd (omega arith)
get-replicate (suc n) a zero h = refl
get-replicate (suc n) a (suc i) h = get-replicate n a i (omega arith)

length-replicate : (n a : ℕ) → length (replicate n a) ≡ n
length-replicate zero a = refl
length-replicate (suc n) a = omega (arith, length-replicate n a)

last_other-replicate :
    (n a last : ℕ) → last ≤ n → last_other (replicate n a) a last ≡ fault out_of_bounds
unfolding last_other
last_other-replicate n a zero h = refl
last_other-replicate n a (suc last) h =
    let s : (a == a) ≡ true = ground arith in
    rw (get-replicate n a last (omega arith), s) (last_other-replicate n a last (omega arith))

-- A table that holds one interface twice or more often, and no other, is read below its start.
pub eliminate_duplicates-replicate :
    (n a : ℕ)
    → eliminate_duplicates (suc (n + 2)) (replicate (n + 2) a) 0 (n + 2) ≡ fault out_of_bounds
unfolding eliminate_duplicates remove_copies
eliminate_duplicates-replicate n a =
    let s : (a == a) ≡ true = ground arith in
    let b : ltb 0 (n + 2) ≡ true = ground arith in
    let c : ltb 1 (n + 2) ≡ true = ground arith in
    rw (
      b,
      c,
      get-replicate (n + 2) a 0 (omega arith),
      get-replicate (n + 2) a 1 (omega arith),
      s,
      last_other-replicate (n + 2) a (n + 2) (omega arith),
    )
