-- ===== src/Common/Bounded.antt =====
-- Bounds on what a part returns, together with its end.
use Prim.Native.Nat.{ℕ, ◌≤◌}
use mathlib.Core.Path.{◌≡◌, subst}
use mathlib.Core.Bool.{Bool, true, false}
use native.Mathlib.Omega.{arith}
use mini_jvm.Common.Tests.{if◌then◌else◌}
use mini_jvm.Common.Outcome.{
  Fault, out_of_fuel, Run, ok, fault, ◌>>=◌, >>=-eq-ok, ok-injective, Ends, bind-Ends_of, ok-Ends,
}

pub fault-Ends {ℓ} : {A : Type ℓ} {e : Fault} → (e ≡ out_of_fuel → ⊥) → Ends {A = A} (fault e)
fault-Ends {e} n h = let q : e ≡ out_of_fuel = cc in n q

pub if-Ends {ℓ} :
    {A : Type ℓ} (b : Bool) {m n : Run A} → Ends m → Ends n → Ends (if b then m else n)
if-Ends true h k = h
if-Ends false h k = k

-- A part that never runs out of fuel, and whose result measures at most `n`.
pub record Within {ℓ} {A : Type ℓ} (size : A → ℕ) (n : ℕ) (m : Run A) : Type ℓ where
  pub ends : Ends m
  pub bound : (a : A) → m ≡ ok a → size a ≤ n

module _ {ℓ} {A : Type ℓ} {size : A → ℕ} {n : ℕ} where
  pub ok-Within : {a : A} → size a ≤ n → Within size n (ok a)
  ok-Within {a} le = record {
    ends = ok-Ends a;
    bound = λ b e. subst (λ x. size x ≤ n) (ok-injective e) le;
  }

  pub fault-Within : {e : Fault} → (e ≡ out_of_fuel → ⊥) → Within size n (fault e)
  fault-Within never = record { ends = fault-Ends never; bound = λ b h. absurd (cc) }

  pub if-Within :
      (b : Bool) {m m' : Run A}
      → Within size n m
      → Within size n m'
      → Within size n (if b then m else m')
  if-Within true h k = h
  if-Within false h k = k

  pub Within-le : {m : Run A} {k : ℕ} → n ≤ k → Within size n m → Within size k m
  Within-le le h = record { ends = h.ends; bound = λ a e. omega (arith, h.bound a e) }

module _ {ℓ κ} {A : Type ℓ} {B : Type κ} {size : B → ℕ} {n : ℕ} where
  -- The second part may know what the first one returns.
  pub bind-Within_of :
      (m : Run A) (f : A → Run B)
      → Ends m
      → ((a : A) → m ≡ ok a → Within size n (f a))
      → Within size n (m >>= f)
  bind-Within_of m f h k = record {
    ends = bind-Ends_of m f h (λ a e. (k a e).ends);
    bound = λ b e. let (a, p, q) = >>=-eq-ok m f e in (k a p).bound b q;
  }

  pub bind-Within :
      {first : A → ℕ} {k : ℕ} (m : Run A) (f : A → Run B)
      → Within first k m
      → ((a : A) → first a ≤ k → Within size n (f a))
      → Within size n (m >>= f)
  bind-Within m f h g = bind-Within_of m f h.ends (λ a e. g a (h.bound a e))

-- A part that never runs out of fuel, and a property of what it returns.
pub record Gives {ℓ κ} {A : Type ℓ} (Q : A → Type κ) (m : Run A) : Type (ℓ ⊔ κ) where
  pub ends : Ends m
  pub all : (a : A) → m ≡ ok a → Q a

pub ok-Gives {ℓ κ} : {A : Type ℓ} {Q : A → Type κ} {a : A} → Q a → Gives Q (ok a)
ok-Gives {Q} {a} q = record { ends = ok-Ends a; all = λ b e. subst Q (ok-injective e) q }

pub bind-Gives {ℓ κ μ} :
    {A B : Type ℓ} {P : A → Type κ} {Q : B → Type μ} {m : Run A} {f : A → Run B}
    → Gives P m
    → ((a : A) → P a → Gives Q (f a))
    → Gives Q (m >>= f)
bind-Gives {m} {f} h k = record {
  ends = bind-Ends_of m f h.ends (λ a e. (k a (h.all a e)).ends);
  all = λ b e. let (a, p, q) = >>=-eq-ok m f e in (k a (h.all a p)).all b q;
}

pub if-Gives {ℓ κ} :
    {A : Type ℓ} {Q : A → Type κ} (b : Bool) {m m' : Run A}
    → Gives Q m
    → Gives Q m'
    → Gives Q (if b then m else m')
if-Gives true h k = h
if-Gives false h k = k
