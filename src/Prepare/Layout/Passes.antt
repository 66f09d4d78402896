-- ===== src/Prepare/Layout/Passes.antt =====
-- One pass of the field layout, without wrap-around, and what it keeps.
use mini_jvm.Common.{
  ℕ, ◌+◌, ◌≤◌, ◌≡◌, sym, ◌⊎◌, inl, inr, List, [], ◌∷◌, Bool, true, false, ◌||◌, subst,
  if◌then◌else◌, All, arith, Bool-cases,
}
use mini_jvm.Prepare.{Field, field_is_ref, field_is_static, typesize_string, bytes_of_ref}

-- The bytes that a field takes.
abbrev pub width : Field → ℕ
width f = if field_is_ref f then bytes_of_ref else typesize_string f.descriptor

abbrev pub Apart : Field → Field → Type 0
Apart f g = (f.offset + width f ≤ g.offset) ⊎ (g.offset + width g ≤ f.offset)

abbrev pub Within : ℕ → ℕ → Field → Type 0
Within lo hi f = (lo ≤ f.offset) × (f.offset + width f ≤ hi)

-- A selection that does not look at offsets.
abbrev pub Picks : Type 0
Picks = Bool → Bool → Bool

abbrev pub picks_of : Picks → Field → Bool
picks_of p f = p (field_is_static f) (field_is_ref f)

-- The selected fields lie in `[lo, hi)`; no two of them overlap.
abbrev pub AllWithin : Picks → ℕ → ℕ → List Field → Type 0
AllWithin p lo hi = All (λ f. picks_of p f ≡ true → Within lo hi f)

abbrev pub AllApart : Picks → List Field → Type 0
AllApart p [] = Unit
AllApart p (f ∷ fs) =
    All (λ g. picks_of p f ≡ true → picks_of p g ≡ true → Apart f g) fs × AllApart p fs

All-map :
    {P Q : Field → Type 0} → ((f : Field) → P f → Q f) → (fs : List Field) → All P fs → All Q fs
All-map h [] a = tt
All-map h (f ∷ fs) (pf, a) = (h f pf, All-map h fs a)

All-map₃ :
    {P Q R S : Field → Type 0}
    → ((f : Field) → P f → Q f → R f → S f)
    → (fs : List Field) → All P fs
    → All Q fs
    → All R fs
    → All S fs
All-map₃ h [] a b c = tt
All-map₃ h (f ∷ fs) (pf, a) (qf, b) (rf, c) = (h f pf qf rf, All-map₃ h fs a b c)

All-trivial : (fs : List Field) → All (λ f. Unit {0}) fs
All-trivial [] = tt
All-trivial (f ∷ fs) = (tt, All-trivial fs)

-- One field of the pass, and the running size behind it.
abbrev pub put : Picks → Field → ℕ → Field
put p f n = if picks_of p f then record f { offset = n } else f

abbrev pub behind : Picks → Field → ℕ → ℕ
behind p f n = if picks_of p f then n + width f else n

unfoldable pub place : Picks → List Field → ℕ → List Field
place p [] n = []
place p (f ∷ fs) n = put p f n ∷ place p fs (behind p f n)

unfoldable pub total : Picks → List Field → ℕ → ℕ
total p [] n = n
total p (f ∷ fs) n = total p fs (behind p f n)

pub total-ge : (p : Picks) (fs : List Field) (n : ℕ) → n ≤ total p fs n
unfolding total
total-ge p [] n = omega arith
total-ge p (f ∷ fs) n = ground (arith, total-ge p fs (behind p f n))

behind-ge : (p : Picks) (f : Field) (n : ℕ) → n ≤ behind p f n
behind-ge p f n = ground arith

put-Within :
    (p : Picks) (f : Field) (n : ℕ)
    → picks_of p (put p f n) ≡ true
    → Within n (behind p f n) (put p f n)
put-Within p f n = elim (Bool-cases (picks_of p f)) [
  | inl e ↦ rw e (λ _. (omega arith, omega arith))
  | inr e ↦ rw e (λ h. absurd (cc))
]

pub place-Within :
    (p : Picks) (fs : List Field) (n lo hi : ℕ)
    → lo ≤ n
    → total p fs n ≤ hi
    → AllWithin p lo hi (place p fs n)
unfolding place total
place-Within p [] n lo hi l h = tt
place-Within p (f ∷ fs) n lo hi l h =
    let b = behind-ge p f n in
    let t = total-ge p fs (behind p f n) in
    (
      λ q. let (u, v) = put-Within p f n q in (omega arith, omega arith),
      place-Within p fs (behind p f n) lo hi (omega arith) h,
    )

abbrev pub Exclusive : Picks → Picks → Type 0
Exclusive p q = (a b : Bool) → p a b ≡ true → q a b ≡ false

abbrev pub union : Picks → Picks → Picks
union p q a b = p a b || q a b

-- A pass does not change what is picked, and leaves the fields of an exclusive selection as they
-- are.
put-picks : (p q : Picks) (f : Field) (n : ℕ) → picks_of q (put p f n) ≡ picks_of q f
put-picks p q f n = elim (Bool-cases (picks_of p f)) [ inl e ↦ rw e | inr e ↦ rw e ]

put-keeps :
    (p q : Picks) (f : Field) (n : ℕ)
    → Exclusive p q
    → picks_of q (put p f n) ≡ true
    → put p f n ≡ f
put-keeps p q f n x h = elim (Bool-cases (picks_of p f)) [
  | inl e ↦
      let no_q : picks_of q f ≡ false = x (field_is_static f) (field_is_ref f) e in
      let yes_q : picks_of q f ≡ true = rw (put-picks p q f n) at h in absurd (cc)
  | inr e ↦ rw e
]

pub keep-All :
    (p q : Picks) (W : Field → Type 0) (fs : List Field) (n : ℕ)
    → Exclusive p q
    → All (λ f. picks_of q f ≡ true → W f) fs
    → All (λ f. picks_of q f ≡ true → W f) (place p fs n)
unfolding place
keep-All p q W [] n x h = tt
keep-All p q W (f ∷ fs) n x (hf, h) = (
  λ e. subst W (sym (put-keeps p q f n x e)) (hf (rw (put-picks p q f n) at e)),
  keep-All p q W fs (behind p f n) x h,
)

pub keep-AllApart :
    (p q : Picks) (fs : List Field) (n : ℕ)
    → Exclusive p q
    → AllApart q fs
    → AllApart q (place p fs n)
unfolding place
keep-AllApart p q [] n x h = tt
keep-AllApart p q (f ∷ fs) n x (hf, h) = (
  head_apart (
      keep-All p q (λ g. picks_of q f ≡ true → Apart f g) fs (behind p f n) x
        (All-map (λ g k e e'. k e' e) fs hf)),
  keep-AllApart p q fs (behind p f n) x h,
)
  where
    head_apart :
        All (λ g. picks_of q g ≡ true → picks_of q f ≡ true → Apart f g) (place p fs (behind p f n))
        → All
            (λ g. picks_of q (put p f n) ≡ true → picks_of q g ≡ true → Apart (put p f n) g)
            (place p fs (behind p f n))
    head_apart k =
        All-map
          (λ g m e e'.
            subst (λ y. Apart y g) (sym (put-keeps p q f n x e))
              (m e' (rw (put-picks p q f n) at e)))
          (place p fs (behind p f n)) k

or-left : (a b : Bool) → (a || b) ≡ true → b ≡ false → a ≡ true
or-left a b h n = ground arith

-- One field of the pass against a field behind it.
put-Apart :
    (p q : Picks) (f g : Field) (lo hi n end : ℕ)
    → hi ≤ n
    → (picks_of q f ≡ true → Within lo hi f)
    → (picks_of p g ≡ true → Within (behind p f n) end g)
    → (picks_of q g ≡ true → Within lo hi g)
    → (picks_of q g ≡ true → picks_of q f ≡ true → Apart f g)
    → picks_of (union q p) (put p f n) ≡ true
    → picks_of (union q p) g ≡ true
    → Apart (put p f n) g
put-Apart p q f g lo hi n end le wf in_p in_q apart e e' = elim (Bool-cases (picks_of p f)) [
  | inl pf ↦ elim (Bool-cases (picks_of p g)) [
    | inl pg ↦
        let b : behind p f n ≡ n + width f = rw pf in rw pf (inl (omega (arith, b, (in_p pg).0)))
    | inr ng ↦ rw pf (inr (omega (arith, (in_q (or-left (picks_of q g) (picks_of p g) e' ng)).1)))
  ]
  | inr nf ↦
      let b : behind p f n ≡ n = rw nf in
      let e₀ : picks_of (union q p) f ≡ true = rw nf at e in
      let qf : picks_of q f ≡ true = or-left (picks_of q f) (picks_of p f) e₀ nf in
      elim (Bool-cases (picks_of p g)) [
        | inl pg ↦ rw nf (inl (omega (arith, b, (in_p pg).0, (wf qf).1)))
        | inr ng ↦ rw nf (apart (or-left (picks_of q g) (picks_of p g) e' ng) qf)
      ]
]

-- The pass for `p`, from `n` on, behind the fields of `q` that lie below `hi`.
pub place-Apart :
    (p q : Picks) (fs : List Field) (lo hi n : ℕ)
    → Exclusive p q
    → hi ≤ n
    → AllWithin q lo hi fs
    → AllApart q fs
    → AllApart (union q p) (place p fs n)
unfolding place
place-Apart p q [] lo hi n x le w a = tt
place-Apart p q (f ∷ fs) lo hi n x le (wf, w) (af, a) =
    let below = behind-ge p f n in
    (
      All-map₃
          (λ g in_p in_q apart e e'.
            put-Apart p q f g lo hi n (total p fs (behind p f n)) le wf in_p in_q apart e e')
          (place p fs (behind p f n))
          (place-Within p fs (behind p f n) (behind p f n) (total p fs (behind p f n)) (omega arith)
            (omega arith))
          (keep-All p q (Within lo hi) fs (behind p f n) x w)
          (keep-All p q (λ g. picks_of q f ≡ true → Apart f g) fs (behind p f n) x
            (All-map (λ g k e e'. k e' e) fs af)),
      place-Apart p q fs lo hi (behind p f n) x (omega arith) w a,
    )

-- Both selections lie between the start of the first and the end of the pass.
pub place-union-Within :
    (p q : Picks) (fs : List Field) (lo hi n : ℕ)
    → Exclusive p q
    → lo ≤ n
    → hi ≤ n
    → AllWithin q lo hi fs
    → AllWithin (union q p) lo (total p fs n) (place p fs n)
place-union-Within p q fs lo hi n x le le' w =
    All-map₃ (λ f in_p in_q _ e. within f in_p in_q e) (place p fs n)
      (place-Within p fs n lo (total p fs n) le (omega arith))
      (keep-All p q (Within lo hi) fs n x w) (All-trivial (place p fs n))
  where
    within :
        (f : Field)
        → (picks_of p f ≡ true → Within lo (total p fs n) f)
        → (picks_of q f ≡ true → Within lo hi f)
        → picks_of (union q p) f ≡ true
        → Within lo (total p fs n) f
    within f in_p in_q e = elim (Bool-cases (picks_of p f)) [
      | inl pf ↦ in_p pf
      | inr nf ↦
          let (u, v) = in_q (or-left (picks_of q f) (picks_of p f) e nf) in
          (u, omega (arith, v, total-ge p fs n))
    ]
