-- ===== src/Prepass/Spec.antt =====
-- What the instructions do to the words of the operand stack, after the Java Virtual Machine
-- Specification, and how the cases of `parse_bytecode` (korp_src/ia32_jit/prepass.cpp) compare.
use mini_jvm.Common.{
  ℕ, ◌+◌, ◌≤◌, ◌<◌, ◌≡◌, refl, ap, List, [], ◌∷◌, ◌++◌, Bool, true, false, ◌||◌, ◌==◌, ==_iff,
  if◌then◌else◌, length, ltb, Option, none, some, Run, ok, fault, inl, inr, every, every-at,
  Bool-cases, Option-cases,
}
use mini_jvm.Prepass.Stack.{Action, run_actions}
use mini_jvm.Prepass.Effects.{fixed_actions, between, yes_ref, not_ref}
use mini_jvm.Prepass.Frame.{run_actions-frame}

-- The words that an instruction takes and the words that it leaves, the top one first.
pub record Effect : Type 0 where
  pub takes : List ℕ
  pub gives : List ℕ

abbrev effect : List ℕ → List ℕ → Option Effect
effect takes gives = some (record { takes = takes; gives = gives })

abbrev one : List ℕ
one = not_ref ∷ []

abbrev two : List ℕ
two = not_ref ∷ one

abbrev three : List ℕ
three = not_ref ∷ two

abbrev four : List ℕ
four = not_ref ∷ three

abbrev a_ref : List ℕ
a_ref = yes_ref ∷ []

abbrev element : List ℕ
element = not_ref ∷ a_ref

-- Loads and stores of local variables and array elements, and constants. `long` and `double` have
-- two words. An element load takes the index and the array, a store the value above them.
unfoldable load_effect : ℕ → Option Effect
load_effect op =
    if op == 0x00
    then effect [] []
    else if op == 0x01 || (op == 0x19 || between 0x2a 0x2d op)
    then effect [] a_ref
    else if between 0x02 0x08 op || (between 0x0b 0x0d op || between 0x10 0x11 op)
    then effect [] one
    else if between 0x09 0x0a op || (between 0x0e 0x0f op || op == 0x14)
    then effect [] two
    else if op == 0x15 || (op == 0x17 || (between 0x1a 0x1d op || between 0x22 0x25 op))
    then effect [] one
    else if op == 0x16 || (op == 0x18 || (between 0x1e 0x21 op || between 0x26 0x29 op))
    then effect [] two
    else if op == 0x2e || (op == 0x30 || between 0x33 0x35 op)
    then effect element one
    else if op == 0x2f || op == 0x31
    then effect element two
    else if op == 0x36 || (op == 0x38 || (between 0x3b 0x3e op || between 0x43 0x46 op))
    then effect one []
    else if op == 0x3a || between 0x4b 0x4e op
    then effect a_ref []
    else if op == 0x37 || (op == 0x39 || (between 0x3f 0x42 op || between 0x47 0x4a op))
    then effect two []
    else if op == 0x4f || (op == 0x51 || between 0x54 0x56 op)
    then effect (not_ref ∷ element) []
    else if op == 0x53
    then effect (yes_ref ∷ element) []
    else if op == 0x50 || op == 0x52
    then effect (not_ref ∷ not_ref ∷ element) []
    else none

-- Arithmetic: the opcodes from 0x60 to 0x83 go through int, long, float and double in turn, the
-- bitwise ones through int and long. A shift takes an int above its operand.
unfoldable compute_effect : ℕ → Option Effect
compute_effect op =
    if op == 0x60 || (op == 0x64 || (op == 0x68 || (op == 0x6c || op == 0x70)))
    then effect two one
    else if op == 0x62 || (op == 0x66 || (op == 0x6a || (op == 0x6e || op == 0x72)))
    then effect two one
    else if op == 0x61 || (op == 0x65 || (op == 0x69 || (op == 0x6d || op == 0x71)))
    then effect four two
    else if op == 0x63 || (op == 0x67 || (op == 0x6b || (op == 0x6f || op == 0x73)))
    then effect four two
    else if op == 0x74 || op == 0x76
    then effect one one
    else if op == 0x75 || op == 0x77
    then effect two two
    else if op == 0x78 || (op == 0x7a || op == 0x7c)
    then effect two one
    else if op == 0x79 || (op == 0x7b || op == 0x7d)
    then effect three two
    else if op == 0x7e || (op == 0x80 || op == 0x82)
    then effect two one
    else if op == 0x7f || (op == 0x81 || op == 0x83)
    then effect four two
    else if op == 0x84
    then effect [] []
    else if op == 0x85 || (op == 0x87 || (op == 0x8c || op == 0x8d))
    then effect one two
    else if op == 0x86 || (op == 0x8b || between 0x91 0x93 op)
    then effect one one
    else if op == 0x8a || op == 0x8f
    then effect two two
    else if op == 0x88 || (op == 0x89 || (op == 0x8e || op == 0x90))
    then effect two one
    else if op == 0x94 || between 0x97 0x98 op
    then effect four one
    else if between 0x95 0x96 op
    then effect two one
    else none

-- Objects: an allocation leaves a reference, a cast keeps one.
unfoldable object_effect : ℕ → Option Effect
object_effect op =
    if op == 0xbb
    then effect [] a_ref
    else if between 0xbc 0xbd op
    then effect one a_ref
    else if op == 0xbe || op == 0xc1
    then effect a_ref one
    else if op == 0xc0
    then effect a_ref a_ref
    else if between 0xc2 0xc3 op
    then effect a_ref []
    else none

abbrev first_effect : Option Effect → Option Effect → Option Effect
first_effect none other = other
first_effect (some e) other = some e

-- All of them; `aaload` and the shuffles of the stack stand apart.
unfoldable pub jvm_effect : ℕ → Option Effect
unfolding load_effect compute_effect object_effect
jvm_effect op = first_effect (load_effect op) (first_effect (compute_effect op) (object_effect op))

-- The room that an instruction needs.
unfoldable pub room : Effect → ℕ
room e = if ltb (length e.takes) (length e.gives) then length e.gives else length e.takes

same : List ℕ → List ℕ → Bool
same [] [] = true
same [] (y ∷ ys) = false
same (x ∷ xs) [] = false
same (x ∷ xs) (y ∷ ys) = if x == y then same xs ys else false

same-eq : (xs ys : List ℕ) → same xs ys ≡ true → xs ≡ ys
unfolding same
same-eq [] [] h = refl
same-eq [] (y ∷ ys) h = cc
same-eq (x ∷ xs) [] h = cc
same-eq (x ∷ xs) (y ∷ ys) h = elim (Bool-cases (x == y)) [
  | inl e ↦ λ i. ((==_iff x y).0 e i) ∷ (same-eq xs ys (rw e at h) i)
  | inr e ↦ let impossible : false ≡ true = rw e at h in cc
]

-- The check of one opcode, on the words that it takes alone.
gives_ok : Run (List ℕ) → List ℕ → Bool
gives_ok (ok stack) gives = same stack gives
gives_ok (fault why) gives = false

gives_ok-eq : (m : Run (List ℕ)) (gives : List ℕ) → gives_ok m gives ≡ true → m ≡ ok gives
unfolding gives_ok
gives_ok-eq (ok stack) gives h = ap ok (same-eq stack gives h)
gives_ok-eq (fault why) gives h = cc

check_actions : Option (List Action) → Effect → Bool
check_actions none e = false
check_actions (some actions) e = gives_ok (run_actions (room e) actions e.takes) e.gives

check_effect : Option Effect → Option (List Action) → Bool
check_effect none actions = true
check_effect (some e) actions = check_actions actions e

agrees : ℕ → Bool
agrees op = check_effect (jvm_effect op) (fixed_actions op)

every-agrees : every agrees 256 ≡ true
unfolding every agrees check_effect check_actions gives_ok same room jvm_effect fixed_actions
    run_actions
every-agrees = refl

-- Each opcode whose effect is fixed has a case that takes and leaves the words of the specification
-- on every stack that holds them on top and leaves the room that the effect needs. Excepted are
-- `aaload` and the shuffles.
pub fixed_actions-effect :
    (op : ℕ) (e : Effect) (max : ℕ) (rest : List ℕ)
    → op < 256
    → jvm_effect op ≡ some e
    → room e + length rest ≤ max
    → (actions : List Action) × (fixed_actions op ≡ some actions)
      × (run_actions max actions (e.takes ++ rest) ≡ ok (e.gives ++ rest))
unfolding agrees check_effect check_actions
fixed_actions-effect op e max rest lt h r =
    let checked : check_effect (some e) (fixed_actions op) ≡ true =
      rw h at (every-at agrees 256 op lt every-agrees) in
    elim (Option-cases (fixed_actions op)) [
      | inl q ↦ let impossible : check_actions none e ≡ true = rw q at checked in cc
      | inr (actions, q) ↦ (
        actions,
        q,
        run_actions-frame (room e) max actions e.takes rest r
            (gives_ok-eq _ e.gives (rw q at checked)),
      )
    ]
