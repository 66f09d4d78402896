-- ===== src/Hierarchy/Subclass.antt =====
-- `is_subclass` (korp_src/class/class_utils.cpp) decides the superclass relation.
use mini_jvm.Common.{
  ℕ, zero, suc, ◌<◌, ◌≡◌, ◌⊎◌, inl, inr, Bool, true, false, ◌==◌, ==_iff, Option, none, some,
  Option-cases, Bool-cases, Run, ok, arith, subst,
}
use mini_jvm.Hierarchy.{Memory, is_subclass}

-- `sub` reaches `super` by superclass links.
pub data Extends (memory : Memory) (super : ℕ) : ℕ → Type 0 where
  same : {sub : ℕ} → super ≡ sub → Extends memory super sub
  up :
      {sub : ℕ} (mid : ℕ)
      → (memory sub).super_class ≡ some mid
      → Extends memory super mid
      → Extends memory super sub

-- The run ended, and with the truth about `P`.
abbrev pub Decides : Run Bool → Type 0 → Type 0
Decides r P = ((r ≡ ok true) × P) ⊎ ((r ≡ ok false) × (¬ P))

-- No class is above itself: a rank falls along the superclass links.
abbrev pub IsRanked : Memory → (ℕ → ℕ) → Type 0
IsRanked memory rank = (c s : ℕ) → (memory c).super_class ≡ some s → rank s < rank c

pub mids_agree : {o : Option ℕ} {a b : ℕ} → o ≡ some a → o ≡ some b → a ≡ b
mids_agree p q = cc

module _ (memory : Memory) (rank : ℕ → ℕ) (ranked : IsRanked memory rank) (super : ℕ) where
  not_above :
      {sub : ℕ}
      → (super == sub) ≡ false
      → (memory sub).super_class ≡ none
      → ¬ Extends memory super sub
  not_above ne top (same e) = absurd (ground arith)
  not_above ne top (up mid e h) = absurd (cc)

  not_through :
      {sub mid : ℕ}
      → (super == sub) ≡ false
      → (memory sub).super_class ≡ some mid
      → ¬ Extends memory super mid
      → ¬ Extends memory super sub
  not_through ne e n (same q) = absurd (ground arith)
  not_through {sub} {mid} ne e n (up mid' e' h) =
      n (subst (Extends memory super) (mids_agree e' e) h)

  -- Where no class is above itself, with more fuel than the rank of the class `is_subclass` ends,
  -- and returns whether the class is the other one or has it among its superclasses.
  pub is_subclass-Decides :
      (fuel sub : ℕ)
      → rank sub < fuel
      → Decides (is_subclass memory fuel super sub) (Extends memory super sub)
  unfolding is_subclass
  is_subclass-Decides zero sub h = absurd (omega arith)
  is_subclass-Decides (suc fuel) sub h = elim (Bool-cases (super == sub)) [
    | inl e ↦ inl (rw e, same ((==_iff super sub).0 e))
    | inr ne ↦ elim (Option-cases ((memory sub).super_class)) [
      | inl top ↦ inr (rw (ne, top), not_above ne top)
      | inr (mid, e) ↦ elim (is_subclass-Decides fuel mid (omega (arith, ranked sub mid e))) [
        | inl (r, p) ↦ inl (rw (ne, e) r, up mid e p)
        | inr (r, n) ↦ inr (rw (ne, e) r, not_through ne e n)
      ]
    ]
  ]
