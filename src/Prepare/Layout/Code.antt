-- ===== src/Prepare/Layout/Code.antt =====
-- The passes of `prepare_fields` (korp_src/class/class_prepare.cpp) are those of `place`.
use mini_jvm.Common.{
  ℕ, ◌+◌, ◌%◌, ◌^◌, ◌<◌, ◌≡◌, refl, sym, ap, ◌∙◌, inl, inr, List, [], ◌∷◌, Bool, not, ◌&&◌, ◌==◌,
  if◌then◌else◌, arith, Bool-cases, ok, ok-injective, >>=-eq-ok, require,
}
use mini_jvm.Prepare.{
  Field, field_is_ref, field_is_static, typesize_string, bytes_of_ref, Pass, place_refs,
  place_others,
}
use mini_jvm.Prepare.Layout.Passes.{Picks, put, behind, place, total, total-ge}

-- The selections of the code's passes, of the fields whose static flag passes `s`.
abbrev pub refs_of : (Bool → Bool) → Picks
refs_of s a b = s a && b

abbrev pub others_of : (Bool → Bool) → Picks
others_of s a b = s a && not b

abbrev pub by_static : (Bool → Bool) → Field → Bool
by_static s f = s (field_is_static f)

refs_step :
    (s : Bool → Bool) (f : Field) (n : ℕ)
    → behind (refs_of s) f n < 2 ^ 16
    → (if by_static s f && field_is_ref f then (n + bytes_of_ref) % 2 ^ 16 else n)
      ≡ behind (refs_of s) f n
refs_step s f n h = elim (Bool-cases (by_static s f)) [
  | inr e ↦ rw e
  | inl e ↦ elim (Bool-cases (field_is_ref f)) [
    | inr r ↦ rw (e, r)
    | inl r ↦ let h' : n + 4 < 2 ^ 16 = rw (e, r) at h in rw (e, r) (omega arith)
  ]
]

others_step :
    (s : Bool → Bool) (f : Field) (n : ℕ)
    → behind (others_of s) f n < 2 ^ 16
    → (if by_static s f && not (field_is_ref f)
        then (n + typesize_string f.descriptor) % 2 ^ 16
        else n)
      ≡ behind (others_of s) f n
others_step s f n h = elim (Bool-cases (by_static s f)) [
  | inr e ↦ rw e
  | inl e ↦ elim (Bool-cases (field_is_ref f)) [
    | inl r ↦ rw (e, r)
    | inr r ↦
        let h' : n + typesize_string f.descriptor < 2 ^ 16 = rw (e, r) at h in
        rw (e, r) (omega arith)
  ]
]

-- While the running size stays below 2 ^ 16 the code's passes are those of `place`.
pub place_refs-place :
    (s : Bool → Bool) (fs : List Field) (n refs : ℕ)
    → total (refs_of s) fs n < 2 ^ 16
    → ((place_refs (by_static s) fs n refs).fields ≡ place (refs_of s) fs n)
      × ((place_refs (by_static s) fs n refs).size ≡ total (refs_of s) fs n)
unfolding place_refs place total
place_refs-place s [] n refs h = (refl, refl)
place_refs-place s (f ∷ fs) n refs h =
    let small : behind (refs_of s) f n < 2 ^ 16 =
      omega (arith, total-ge (refs_of s) fs (behind (refs_of s) f n)) in
    let counted : ℕ = if by_static s f && field_is_ref f then (refs + 1) % 2 ^ 8 else refs in
    let (u, v) = place_refs-place s fs (behind (refs_of s) f n) counted h in
    rw (refs_step s f n small) (ap (λ l. put (refs_of s) f n ∷ l) u, v)

pub place_others-place :
    (s : Bool → Bool) (counts : Bool) (fs : List Field) (n refs : ℕ) (r : Pass)
    → total (others_of s) fs n < 2 ^ 16
    → place_others (by_static s) counts fs n refs ≡ ok r
    → (r.fields ≡ place (others_of s) fs n) × (r.size ≡ total (others_of s) fs n)
unfolding place_others place total
place_others-place s counts [] n refs r h e = (
  ap (λ (x : Pass). x.fields) (sym (ok-injective e)),
  ap (λ (x : Pass). x.size) (sym (ok-injective e)),
)
place_others-place s counts (f ∷ fs) n refs r h e =
    let small : behind (others_of s) f n < 2 ^ 16 =
      omega (arith, total-ge (others_of s) fs (behind (others_of s) f n)) in
    let placed : Bool = by_static s f && not (field_is_ref f) in
    let counted : ℕ = if placed && counts then (refs + 1) % 2 ^ 8 else refs in
    let (_, _, e₁) = >>=-eq-ok (require (not (placed && typesize_string f.descriptor == 0))) _ e in
    let (rest, run, e₂) = >>=-eq-ok (place_others (by_static s) counts fs _ counted) _ e₁ in
    let (u, v) =
      place_others-place s counts fs (behind (others_of s) f n) counted rest h
        (rw (others_step s f n small) at run) in
    let q = sym (ok-injective e₂) in
    (
      ap (λ (x : Pass). x.fields) q ∙ ap (λ l. put (others_of s) f n ∷ l) u,
      ap (λ (x : Pass). x.size) q ∙ v,
    )
