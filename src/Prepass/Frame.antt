-- ===== src/Prepass/Frame.antt =====
-- The frame rules of the stack of the prepass (korp_src/utils/utils.h): what succeeds on some words does
-- so on top of others.
use mini_jvm.Common.{
  ℕ, zero, suc, ◌+◌, ◌-◌, ◌≤◌, ◌<◌, ◌≡◌, refl, ap, ◌∙◌, List, [], ◌∷◌, ◌++◌, ◌==◌, length,
  length-append, ltb, lt→ltb, ltb→lt, get_elem?, set, some, ok, fault, inl, inr, out_of_bounds,
  assert, >>=-eq-ok, ok-injective, ok-bind, deref-ok, arith, Bool-cases,
}
use mini_jvm.Prepass.Stack.{
  Action, push, times_pop, expect, push_ith, set_ith, swap, pop_words, push_word, get_ith,
  write_ith, run_action, run_actions,
}

get_elem?-append :
    (xs ys : List ℕ) (i : ℕ) {v : ℕ} → get_elem? xs i ≡ some v → get_elem? (xs ++ ys) i ≡ some v
get_elem?-append [] ys i h = cc
get_elem?-append (x ∷ xs) ys zero h = h
get_elem?-append (x ∷ xs) ys (suc i) h = get_elem?-append xs ys i h

set-append :
    (xs ys : List ℕ) (i : ℕ) (v : ℕ) {w : ℕ}
    → get_elem? xs i ≡ some w
    → set (xs ++ ys) i v ≡ set xs i v ++ ys
set-append [] ys i v h = cc
set-append (x ∷ xs) ys zero v h = refl
set-append (x ∷ xs) ys (suc i) v h = ap (λ l. x ∷ l) (set-append xs ys i v h)

get_ith-frame :
    (i : ℕ) (xs rest : List ℕ) {v : ℕ} → get_ith i xs ≡ ok v → get_ith i (xs ++ rest) ≡ ok v
unfolding get_ith
get_ith-frame i xs rest h = rw (get_elem?-append xs rest (i - 1) (deref-ok out_of_bounds _ h)) refl

write_ith-frame :
    (i w : ℕ) (xs rest : List ℕ) {ys : List ℕ}
    → write_ith i w xs ≡ ok ys
    → write_ith i w (xs ++ rest) ≡ ok (ys ++ rest)
unfolding write_ith
write_ith-frame i w xs rest h =
    let (v, p, q) = >>=-eq-ok (get_ith i xs) _ h in
    let inside : get_elem? xs (i - 1) ≡ some v = deref-ok out_of_bounds _ (unfold get_ith in p) in
    rw (get_ith-frame i xs rest p)
      (ap ok (set-append xs rest (i - 1) w inside ∙ ap (λ l. l ++ rest) (ok-injective q)))

push_word-frame :
    (m max : ℕ) (w : ℕ) (xs rest : List ℕ) {ys : List ℕ}
    → m + length rest ≤ max
    → push_word m w xs ≡ ok ys
    → push_word max w (xs ++ rest) ≡ ok (ys ++ rest)
unfolding push_word
push_word-frame m max w xs rest {ys} r h = elim (Bool-cases (ltb (length xs) m)) [
  | inl e ↦
      let fits : length (xs ++ rest) < max =
        omega (arith, ltb→lt (length xs) m e, length-append xs rest) in
      rw (lt→ltb _ _ fits) (ap (λ r. ok (r ++ rest)) (ok-injective (rw e at h)))
  | inr e ↦ let impossible : fault out_of_bounds ≡ ok ys = rw e at h in cc
]

pop_words-frame :
    (n : ℕ) (xs rest : List ℕ) {ys : List ℕ}
    → pop_words n xs ≡ ok ys
    → pop_words n (xs ++ rest) ≡ ok (ys ++ rest)
unfolding pop_words
pop_words-frame zero xs rest h = ap (λ r. ok (r ++ rest)) (ok-injective h)
pop_words-frame (suc n) [] rest h = cc
pop_words-frame (suc n) (x ∷ xs) rest h = pop_words-frame n xs rest h

run_action-frame :
    (m max : ℕ) (a : Action) (xs rest : List ℕ) {ys : List ℕ}
    → m + length rest ≤ max
    → run_action m a xs ≡ ok ys
    → run_action max a (xs ++ rest) ≡ ok (ys ++ rest)
unfolding run_action
run_action-frame m max (push w) xs rest r h = push_word-frame m max w xs rest r h
run_action-frame m max (times_pop n) xs rest r h = pop_words-frame n xs rest h
run_action-frame m max (expect i w) xs rest r h =
    let (v, p, q) = >>=-eq-ok (get_ith i xs) _ h in
    let (u, p', q') = >>=-eq-ok (assert (v == w)) _ q in
    rw (get_ith-frame i xs rest p, p') (ap (λ r. ok (r ++ rest)) (ok-injective q'))
run_action-frame m max (push_ith i) xs rest r h =
    let (v, p, q) = >>=-eq-ok (get_ith i xs) _ h in
    rw (get_ith-frame i xs rest p) (push_word-frame m max v xs rest r q)
run_action-frame m max (set_ith i j) xs rest r h =
    let (v, p, q) = >>=-eq-ok (get_ith j xs) _ h in
    rw (get_ith-frame j xs rest p) (write_ith-frame i v xs rest q)
run_action-frame m max swap xs rest r h =
    let (index, p1, q1) = >>=-eq-ok (get_ith 1 xs) _ h in
    let (v, p2, q2) = >>=-eq-ok (get_ith 2 xs) _ q1 in
    let (ys, p3, q3) = >>=-eq-ok (write_ith 1 v xs) _ q2 in
    ok-bind (get_ith-frame 1 xs rest p1) _ (
      ok-bind (get_ith-frame 2 xs rest p2) _
        (ok-bind (write_ith-frame 1 v xs rest p3) _ (write_ith-frame 2 index ys rest q3)))

pub run_actions-frame :
    (m max : ℕ) (actions : List Action) (xs rest : List ℕ) {ys : List ℕ}
    → m + length rest ≤ max
    → run_actions m actions xs ≡ ok ys
    → run_actions max actions (xs ++ rest) ≡ ok (ys ++ rest)
unfolding run_actions
run_actions-frame m max [] xs rest r h = ap (λ r. ok (r ++ rest)) (ok-injective h)
run_actions-frame m max (a ∷ actions) xs rest r h =
    let (ys, p, q) = >>=-eq-ok (run_action m a xs) _ h in
    rw (run_action-frame m max a xs rest r p) (run_actions-frame m max actions ys rest r q)
