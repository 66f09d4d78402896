-- ===== src/Common/Outcome.antt =====
-- Code that may stop: by a failed `assert`, by an access outside an object, or by an error that
-- the code reports to its caller.
use Prim.Native.Nat.{ℕ}
use mathlib.Core.Path.{◌≡◌, refl, ap}
use mathlib.Core.Logic.{◌⊎◌, inl, inr}
use mathlib.Core.Bool.{Bool, true, false}
use mathlib.Core.List.{List, [], ◌∷◌}
use mathlib.Core.Option.{Option, none, some}

pub data Fault : Type 0 where
  assert_failed out_of_bounds null_pointer out_of_fuel reported : Fault

pub data Run {ℓ} (A : Type ℓ) : Type ℓ where
  ok : A → Run A
  fault : Fault → Run A

infixl 5 ◌>>=◌
abbrev pub ◌>>=◌ {ℓ κ} : {X : Type ℓ} {Y : Type κ} → Run X → (X → Run Y) → Run Y
fault why >>= rest = fault why
ok x >>= rest = rest x

infixl 5 ◌>>◌
abbrev pub ◌>>◌ {ℓ} : {Y : Type ℓ} → Run (Unit {0}) → Run Y → Run Y
first >> rest = first >>= λ done. rest

-- `assert(b)`
abbrev pub assert : Bool → Run (Unit {0})
assert true = ok tt
assert false = fault assert_failed

-- `if( !b ) return false;`
abbrev pub require : Bool → Run (Unit {0})
require true = ok tt
require false = fault reported

-- A dereference of what may be missing.
abbrev pub deref {ℓ} : {A : Type ℓ} → Fault → Option A → Run A
deref e none = fault e
deref e (some a) = ok a

-- `*p++`
abbrev pub next : List ℕ → Run (ℕ × List ℕ)
next [] = fault out_of_bounds
next (c ∷ r) = ok (c, r)

module _ {ℓ κ} {A : Type ℓ} {B : Type κ} where
  -- A run of two parts that succeeds, taken apart.
  pub >>=-eq-ok :
      (run : Run A) (rest : A → Run B) {result : B}
      → (run >>= rest) ≡ ok result
      → (middle : A) × (run ≡ ok middle) × (rest middle ≡ ok result)
  >>=-eq-ok (fault why) rest e = cc
  >>=-eq-ok (ok middle) rest e = (middle, refl, e)

  pub bind_assoc {μ} :
      {C : Type μ} (m : Run A) (f : A → Run B) (g : B → Run C)
      → (m >>= f >>= g) ≡ (m >>= λ a. f a >>= g)
  bind_assoc (ok a) f g = refl
  bind_assoc (fault e) f g = refl

pub Run-cases {ℓ} :
    {A : Type ℓ} (m : Run A) → ((a : A) × (m ≡ ok a)) ⊎ ((e : Fault) × (m ≡ fault e))
Run-cases (ok a) = inl (a, refl)
Run-cases (fault e) = inr (e, refl)

pub ok-injective {ℓ} : {A : Type ℓ} {a b : A} → ok a ≡ ok b → a ≡ b
ok-injective h = cc

pub require-ok : (b : Bool) {u : Unit {0}} → require b ≡ ok u → b ≡ true
require-ok true h = refl
require-ok false h = cc

pub deref-ok {ℓ} : {A : Type ℓ} (e : Fault) (m : Option A) {a : A} → deref e m ≡ ok a → m ≡ some a
deref-ok e none h = cc
deref-ok e (some a) h = ap some (ok-injective h)

-- A part that never runs out of fuel.
abbrev pub Ends {ℓ} : {A : Type ℓ} → Run A → Type ℓ
Ends m = m ≡ fault out_of_fuel → ⊥

-- The second part may know where its argument comes from.
pub bind-Ends_of {ℓ κ} :
    {A : Type ℓ} {B : Type κ} (m : Run A) (f : A → Run B)
    → Ends m
    → ((a : A) → m ≡ ok a → Ends (f a))
    → Ends (m >>= f)
bind-Ends_of (ok a) f n k = k a refl
bind-Ends_of (fault e) f n k = λ h. let q : e ≡ out_of_fuel = cc in n (ap fault q)

pub bind-Ends {ℓ κ} :
    {A : Type ℓ} {B : Type κ} (m : Run A) (f : A → Run B)
    → Ends m
    → ((a : A) → Ends (f a))
    → Ends (m >>= f)
bind-Ends m f n k = bind-Ends_of m f n (λ a _. k a)

pub ok-Ends {ℓ} : {A : Type ℓ} (a : A) → Ends (ok a)
ok-Ends a h = absurd (cc)

pub assert-Ends : (b : Bool) → Ends (assert b)
assert-Ends true h = absurd (cc)
assert-Ends false h = absurd (cc)

pub require-Ends : (b : Bool) → Ends (require b)
require-Ends true h = absurd (cc)
require-Ends false h = absurd (cc)

pub inside-Ends {ℓ} : {A : Type ℓ} (m : Option A) → Ends (deref out_of_bounds m)
inside-Ends none h = absurd (cc)
inside-Ends (some a) h = absurd (cc)

-- A run of two parts whose first one is known.
pub ok-bind {ℓ κ} :
    {A : Type ℓ} {B : Type κ} {m : Run A} {a : A}
    → m ≡ ok a
    → (f : A → Run B) {r : Run B} → f a ≡ r
    → (m >>= f) ≡ r
ok-bind p f q = rw p q
