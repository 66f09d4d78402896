-- ===== src/Prepare/Layout.antt =====
-- The field layout of `prepare_fields` (korp_src/class/class_prepare.cpp): no two fields overlap,
-- and all lie inside the static block or the instance.
pub mod Passes
pub mod Code
pub mod Measure
use mathlib.Core.List.{map}
use mathlib.Core.Path.{fun_ext}
use mini_jvm.Common.{
  ℕ, ◌+◌, ◌%◌, ◌^◌, ◌≤◌, ◌<◌, ◌≡◌, refl, sym, ap, ◌∙◌, subst, List, [], ◌∷◌, Bool, true, false, not,
  ◌&&◌, ◌||◌, All, arith, Bool-cases, inl, inr, Option, none, some, Run, ok, >>=-eq-ok,
  ok-injective, if◌then◌else◌,
}
use mini_jvm.Prepare.{
  Field, field_is_ref, field_is_static, bytes_of_ref, vm_obj_overhead, Pass, place_refs,
  place_others, Prepared, prepare_fields,
}
use mini_jvm.Prepare.Layout.Passes.{
  width, Apart, Within, Picks, picks_of, AllWithin, AllApart, put, behind, place, total, total-ge,
  Exclusive, union, keep-All, keep-AllApart, place-Apart, place-union-Within, place-Within,
}
use mini_jvm.Prepare.Layout.Code.{
  refs_of, others_of, by_static, place_refs-place, place_others-place,
}
use mini_jvm.Prepare.Layout.Measure.{
  bytes, kind, picked, total-picked, place-kind, picked-place, picked-split, bytes-place, nobody,
  nobody-Within, nobody-Apart,
}

-- Both passes of one kind, from `n` on.
abbrev both : (Bool → Bool) → List Field → ℕ → List Field
both s fs n = place (others_of s) (place (refs_of s) fs n) (total (refs_of s) fs n)

abbrev both_end : (Bool → Bool) → List Field → ℕ → ℕ
both_end s fs n = total (others_of s) (place (refs_of s) fs n) (total (refs_of s) fs n)

-- The fields whose static flag passes `s`.
abbrev pub all_of : (Bool → Bool) → Picks
all_of s a b = s a

exclusive : (s : Bool → Bool) → Exclusive (others_of s) (refs_of s)
exclusive s a true h = ground arith
exclusive s a false h = ground arith

union-all : (s : Bool → Bool) → union (refs_of s) (others_of s) ≡ all_of s
union-all s = fun_ext (λ a. fun_ext (λ b. ground arith))

module _ (s : Bool → Bool) (fs : List Field) (n : ℕ) where
  refs-Within : AllWithin (refs_of s) n (total (refs_of s) fs n) (place (refs_of s) fs n)
  refs-Within = place-Within (refs_of s) fs n n (total (refs_of s) fs n) (omega arith) (omega arith)

  refs-Apart : AllApart (refs_of s) (place (refs_of s) fs n)
  refs-Apart =
      place-Apart (refs_of s) nobody fs 0 n n (λ a b h. refl) (omega arith) (nobody-Within 0 n fs)
        (nobody-Apart fs)

  both-Apart : AllApart (all_of s) (both s fs n)
  both-Apart =
      subst (λ p. AllApart p (both s fs n)) (union-all s)
        (place-Apart (others_of s) (refs_of s) (place (refs_of s) fs n) n (total (refs_of s) fs n)
          (total (refs_of s) fs n) (exclusive s) (omega arith) refs-Within refs-Apart)

  both-Within : AllWithin (all_of s) n (both_end s fs n) (both s fs n)
  both-Within =
      subst (λ p. AllWithin p n (both_end s fs n) (both s fs n)) (union-all s)
        (place-union-Within (others_of s) (refs_of s) (place (refs_of s) fs n) n
          (total (refs_of s) fs n) (total (refs_of s) fs n) (exclusive s)
          (total-ge (refs_of s) fs n) (omega arith) refs-Within)

  both_end-le : both_end s fs n ≤ n + bytes fs
  both_end-le = omega (
    arith,
    total-picked (refs_of s) fs n,
    total-picked (others_of s) (place (refs_of s) fs n) (total (refs_of s) fs n),
    picked-place (others_of s) (refs_of s) fs n,
    picked-split s fs,
  )

abbrev pub is_static : Bool → Bool
is_static b = b

-- Every static field has its own bytes of the static block, and every instance field its own bytes
-- of the instance, behind those of the superclass; descriptors and modifiers are as they were.
pub record LaidOut (field_info : List Field) (start : ℕ) (p : Prepared) : Type 0 where
  pub unchanged : map kind p.fields ≡ map kind field_info
  pub statics_apart : AllApart (all_of is_static) p.fields
  pub statics_within : AllWithin (all_of is_static) 0 p.static_data_size p.fields
  pub instances_apart : AllApart (all_of not) p.fields
  pub instances_within : AllWithin (all_of not) start p.instance_size p.fields

abbrev pub start_of : Option (ℕ × ℕ) → ℕ
start_of base = elim base [ none ↦ vm_obj_overhead | some b ↦ b.0 ]

refs_not_static : (a b : Bool) → refs_of not a b ≡ true → all_of is_static a b ≡ false
refs_not_static true b h = cc
refs_not_static false b h = refl

others_not_static : (a b : Bool) → others_of not a b ≡ true → all_of is_static a b ≡ false
others_not_static true b h = cc
others_not_static false b h = refl

-- The four passes together.
four-LaidOut :
    (fs : List Field) (start : ℕ) (p : Prepared)
    → p.fields ≡ both not (both is_static fs 0) start
    → p.static_data_size ≡ both_end is_static fs 0
    → p.instance_size ≡ both_end not (both is_static fs 0) start
    → LaidOut fs start p
four-LaidOut fs start p f s i =
    let st = both is_static fs 0 in
    let mid = place (refs_of not) st start in
    record {
      unchanged =
          ap (map kind) f
          ∙ place-kind (others_of not) mid (total (refs_of not) st start)
          ∙ place-kind (refs_of not) st start
          ∙ place-kind (others_of is_static) (place (refs_of is_static) fs 0)
              (total (refs_of is_static) fs 0)
          ∙ place-kind (refs_of is_static) fs 0;
      statics_apart = subst (AllApart (all_of is_static)) (sym f) (
          keep-AllApart (others_of not) (all_of is_static) mid (total (refs_of not) st start)
            others_not_static
            (keep-AllApart (refs_of not) (all_of is_static) st start refs_not_static
              (both-Apart is_static fs 0)));
      statics_within =
          rw (f, s)
            (keep-All (others_of not) (all_of is_static) (Within 0 (both_end is_static fs 0)) mid
              (total (refs_of not) st start) others_not_static
              (keep-All (refs_of not) (all_of is_static) (Within 0 (both_end is_static fs 0)) st
                start refs_not_static (both-Within is_static fs 0)));
      instances_apart = subst (AllApart (all_of not)) (sym f) (both-Apart not st start);
      instances_within = rw (f, i) (both-Within not st start);
    }

-- The code's two passes of one kind are those of `both`.
two_passes-both :
    (s : Bool → Bool) (counts : Bool) (fs : List Field) (n refs : ℕ) (r : Pass)
    → n + bytes fs < 2 ^ 16
    → place_others
        (by_static s)
        counts
        (place_refs (by_static s) fs n refs).fields
        (place_refs (by_static s) fs n refs).size
        (place_refs (by_static s) fs n refs).refs
      ≡ ok r
    → (r.fields ≡ both s fs n) × (r.size ≡ both_end s fs n)
two_passes-both s counts fs n refs r h run =
    let small : total (refs_of s) fs n < 2 ^ 16 =
      omega (arith, total-picked (refs_of s) fs n, picked-split s fs) in
    let (u, v) = place_refs-place s fs n refs small in
    let run₁ : place_others (by_static s) counts (place (refs_of s) fs n) (total (refs_of s) fs n)
          (place_refs (by_static s) fs n refs).refs
        ≡ ok r =
      subst
        (λ k.
          place_others (by_static s) counts (place (refs_of s) fs n) k
            (place_refs (by_static s) fs n refs).refs
          ≡ ok r)
        v
        (subst
          (λ l.
            place_others (by_static s) counts l (place_refs (by_static s) fs n refs).size
              (place_refs (by_static s) fs n refs).refs
            ≡ ok r)
          u run) in
    place_others-place s counts (place (refs_of s) fs n) (total (refs_of s) fs n) _ r
      (omega (arith, both_end-le s fs n)) run₁

bytes-both : (s : Bool → Bool) (fs : List Field) (n : ℕ) → bytes (both s fs n) ≡ bytes fs
bytes-both s fs n =
    bytes-place (others_of s) (place (refs_of s) fs n) (total (refs_of s) fs n)
    ∙ bytes-place (refs_of s) fs n

-- A successful `prepare_fields` of a class lays its fields out without overlap, if the fields fit
-- behind the superclass's in the 16 bits of the sizes.
pub prepare_fields-LaidOut :
    (old_size old_info : ℕ) (base : Option (ℕ × ℕ)) (field_info : List Field) (p : Prepared)
    → start_of base + bytes field_info < 2 ^ 16
    → prepare_fields false old_size old_info base field_info ≡ ok p
    → LaidOut field_info (start_of base) p
unfolding prepare_fields
prepare_fields-LaidOut old_size old_info base fs p h e =
    let (s₂, run₂, e₁) = >>=-eq-ok (place_others field_is_static true _ _ _) _ e in
    let (i₂, run₄, e₂) = >>=-eq-ok (place_others (by_static not) false _ _ _) _ e₁ in
    let (u, v) = two_passes-both is_static true fs 0 0 s₂ (omega arith) run₂ in
    let same : bytes s₂.fields ≡ bytes fs = ap bytes u ∙ bytes-both is_static fs 0 in
    let (u', v') = two_passes-both not false s₂.fields (start_of base) _ i₂ (omega arith) run₄ in
    let q = sym (ok-injective e₂) in
    four-LaidOut fs (start_of base) p
      (ap (λ (x : Prepared). x.fields) q ∙ u' ∙ ap (λ l. both not l (start_of base)) u)
      (ap (λ (x : Prepared). x.static_data_size) q ∙ v)
      (ap (λ (x : Prepared). x.instance_size) q ∙ v' ∙ ap (λ l. both_end not l (start_of base)) u)
