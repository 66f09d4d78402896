-- ===== src/Prepare/Layout/Measure.antt =====
-- What a pass of the field layout keeps: the bytes of the fields, and what it does not place.
use mathlib.Core.List.{map}
use mini_jvm.Common.{
  ℕ, ◌+◌, ◌≤◌, ◌≡◌, refl, List, [], ◌∷◌, Bool, true, false, All, arith, Bool-cases, inl, inr,
  if◌then◌else◌,
}
use mini_jvm.Prepare.{Field, field_is_ref}
use mini_jvm.Prepare.Layout.Passes.{
  width, Apart, Picks, picks_of, AllWithin, AllApart, place, total,
}
use mini_jvm.Prepare.Layout.Code.{refs_of, others_of, by_static}

-- The bytes of all fields together.
unfoldable pub bytes : List Field → ℕ
bytes [] = 0
bytes (f ∷ fs) = width f + bytes fs

-- What preparation leaves alone.
abbrev pub kind : Field → List ℕ × ℕ
kind f = (f.descriptor, f.modifier)

-- The bytes of the picked fields.
unfoldable pub picked : Picks → List Field → ℕ
picked p [] = 0
picked p (f ∷ fs) = (if picks_of p f then width f else 0) + picked p fs

pub total-picked : (p : Picks) (fs : List Field) (n : ℕ) → total p fs n ≡ n + picked p fs
unfolding total picked
total-picked p [] n = omega arith
total-picked p (f ∷ fs) n = elim (Bool-cases (picks_of p f)) [
  | inl e ↦ rw e (omega (arith, total-picked p fs (n + width f)))
  | inr e ↦ rw e (omega (arith, total-picked p fs n))
]

pub place-kind : (p : Picks) (fs : List Field) (n : ℕ) → map kind (place p fs n) ≡ map kind fs
unfolding place
place-kind p [] n = refl
place-kind p (f ∷ fs) n = elim (Bool-cases (picks_of p f)) [
  | inl e ↦ rw (e, place-kind p fs (n + width f))
  | inr e ↦ rw (e, place-kind p fs n)
]

pub picked-place : (p q : Picks) (fs : List Field) (n : ℕ) → picked p (place q fs n) ≡ picked p fs
unfolding picked place
picked-place p q [] n = refl
picked-place p q (f ∷ fs) n = elim (Bool-cases (picks_of q f)) [
  | inl e ↦ rw (e, picked-place p q fs (n + width f))
  | inr e ↦ rw (e, picked-place p q fs n)
]

pub picked-split :
    (s : Bool → Bool) (fs : List Field) → picked (refs_of s) fs + picked (others_of s) fs ≤ bytes fs
unfolding picked bytes
picked-split s [] = omega arith
picked-split s (f ∷ fs) = elim (Bool-cases (by_static s f)) [
  | inr e ↦ rw e (omega (arith, picked-split s fs))
  | inl e ↦ elim (Bool-cases (field_is_ref f)) [
    | inl r ↦ rw (e, r) (omega (arith, picked-split s fs))
    | inr r ↦ rw (e, r) (omega (arith, picked-split s fs))
  ]
]

pub bytes-place : (q : Picks) (fs : List Field) (n : ℕ) → bytes (place q fs n) ≡ bytes fs
unfolding bytes place
bytes-place q [] n = refl
bytes-place q (f ∷ fs) n = elim (Bool-cases (picks_of q f)) [
  | inl e ↦ rw (e, bytes-place q fs (n + width f))
  | inr e ↦ rw (e, bytes-place q fs n)
]

abbrev pub nobody : Picks
nobody a b = false

pub nobody-Within : (lo hi : ℕ) (fs : List Field) → AllWithin nobody lo hi fs
nobody-Within lo hi [] = tt
nobody-Within lo hi (f ∷ fs) = (λ h. absurd (cc), nobody-Within lo hi fs)

nobody-pairs :
    (f : Field) (fs : List Field)
    → All (λ g. nobody true true ≡ true → nobody true true ≡ true → Apart f g) fs
nobody-pairs f [] = tt
nobody-pairs f (g ∷ fs) = (λ h _. absurd (cc), nobody-pairs f fs)

pub nobody-Apart : (fs : List Field) → AllApart nobody fs
nobody-Apart [] = tt
nobody-Apart (f ∷ fs) = (nobody-pairs f fs, nobody-Apart fs)
