-- ===== src/Prepass/Termination.antt =====
-- The walk of the prepass (korp_src/ia32_jit/prepass.cpp) ends: it visits an instruction once.
use mini_jvm.Common.{
  ℕ, zero, suc, sym, subst, Memᴰ, >>=-eq-ok, ok-injective, get_elem?-set_self, get_elem?-lt, ◌+◌,
  ◌<◌, ◌≡◌, ap, ◌∙◌, List, [], ◌∷◌, Bool, true, false, length, get_elem?, some, ok, out_of_bounds,
  ◌>>=◌, deref-ok, Ends, inside-Ends, Bool-cases, inl, inr, arith,
}
use mini_jvm.Prepass.Marks.{
  unvisited, unvisited-set, unvisited-length, Keeps, Keeps-refl, set-Keeps, Onward, ok-Onward,
  Onward-from, bind-Onward, bind-Onward_of,
}
use mini_jvm.Prepass.Effects.{yes_ref}
use mini_jvm.Prepass.Stack.{push_word}
use mini_jvm.Prepass.Calls.{Method, read_uint8_index}
use mini_jvm.Prepass.Ends.{push_word-Ends, read_uint8_index-Ends}
use mini_jvm.Prepass.Flow.{
  State, Parse, mark_visited, visited_at, Outcome, next_inst, block_end, instruction, enter,
  proceed, turn, walk, parse_bytecode, parse_handler_code, prepass_bytecode,
}
use mini_jvm.Prepass.Turns.{remaining, visits, left, instruction-Onward}

-- The rest of the walk, for a `continue` that ends where fewer than `fuel` instructions are left.
module _ {continue : Parse} {fuel : ℕ}
    (ends : (pc : ℕ) (st : State)
      → remaining st < fuel
      → Onward visits (visits st) (continue pc st)) where
  proceed-Onward :
      (o : Outcome) → unvisited (left o) < fuel → Onward visits (left o) (proceed continue o)
  unfolding proceed
  proceed-Onward (next_inst pc st) lt = ends pc st lt
  proceed-Onward (block_end st) lt = ok-Onward Keeps-refl

  parse-Onward :
      (pc : ℕ) (st : State)
      → remaining st < fuel
      → Onward visits (visits st) (enter pc st >>= continue pc)
  unfolding enter visited_at
  parse-Onward pc st lt =
      bind-Onward (enter pc st) _
        (bind-Onward_of (visited_at st pc) _ (inside-Ends _) (λ seen _. ok-Onward Keeps-refl))
        (λ st' h. Onward-from h (ends pc st' (omega (arith, h.fewer))))

  turn-Onward :
      (m : Method) (pc : ℕ) (st : State)
      → visited_at st pc ≡ ok false
      → remaining st < suc fuel
      → Onward visits (visits (mark_visited pc st)) (turn continue m pc st)
  unfolding turn visited_at
  turn-Onward m pc st e lt =
      let fewer : suc (remaining (mark_visited pc st)) ≡ remaining st =
        unvisited-set st.is_visited pc (deref-ok out_of_bounds _ e) in
      bind-Onward_of (read_uint8_index m.byte_code pc) _ (read_uint8_index-Ends m.byte_code pc)
        (λ op _.
          bind-Onward
            (instruction (λ pc st. enter pc st >>= continue pc) m op pc (mark_visited pc st)) _
            (instruction-Onward {n = remaining (mark_visited pc st)}
              (λ pc st le. parse-Onward pc st (omega arith)) m op pc (mark_visited pc st)
              (omega arith))
            (λ o h. Onward-from h (proceed-Onward o (omega (arith, h.fewer)))))

pub walk-Onward :
    (fuel : ℕ) (m : Method) (pc : ℕ) (st : State)
    → remaining st < fuel
    → Onward visits (visits st) (walk fuel m pc st)
unfolding walk visited_at
walk-Onward zero m pc st lt = absurd (omega arith)
walk-Onward (suc fuel) m pc st lt = bind-Onward_of (visited_at st pc) _ (inside-Ends _) (λ seen e.
    elim (Bool-cases seen) [
      | inl q ↦ rw q (ok-Onward Keeps-refl)
      | inr q ↦ rw q (
          Onward-from (set-Keeps st.is_visited pc (deref-ok out_of_bounds _ (e ∙ ap ok q)))
            (turn-Onward (λ pc st le. walk-Onward fuel m pc st le) m pc st (e ∙ ap ok q) lt))
    ])

-- The instruction at which the walk starts is marked behind it.
walk-marks :
    (fuel : ℕ) (m : Method) (pc : ℕ) (st st' : State)
    → remaining st < fuel
    → walk fuel m pc st ≡ ok st'
    → get_elem? st'.is_visited pc ≡ some true
unfolding walk visited_at
walk-marks zero m pc st st' lt h = absurd (omega arith)
walk-marks (suc fuel) m pc st st' lt h =
    let (seen, e, run) = >>=-eq-ok (visited_at st pc) _ h in
    let at : get_elem? st.is_visited pc ≡ some seen = deref-ok out_of_bounds _ e in
    elim (Bool-cases seen) [
      | inl q ↦
          let same : st ≡ st' = ok-injective (rw q at run) in
          subst (λ (s : State). get_elem? s.is_visited pc ≡ some true) same (at ∙ ap some q)
      | inr q ↦
          let more =
            turn-Onward (λ pc st le. walk-Onward fuel m pc st le) m pc st (e ∙ ap ok q) lt in
          (more.keeps st' (rw q at run)).stays pc
            (get_elem?-set_self st.is_visited pc true (get_elem?-lt st.is_visited pc at))
    ]

pub parse_bytecode-Onward :
    (m : Method) (pc : ℕ) (st : State) → Onward visits (visits st) (parse_bytecode m pc st)
unfolding parse_bytecode enter visited_at
parse_bytecode-Onward m pc st =
    bind-Onward (enter pc st) _
      (bind-Onward_of (visited_at st pc) _ (inside-Ends _) (λ seen _. ok-Onward Keeps-refl))
      (λ st' h. Onward-from h (
        walk-Onward (length st'.is_visited + 1) m pc st'
          (omega (arith, unvisited-length st'.is_visited))))

parse_bytecode-marks :
    (m : Method) (pc : ℕ) (st st' : State)
    → parse_bytecode m pc st ≡ ok st'
    → get_elem? st'.is_visited pc ≡ some true
unfolding parse_bytecode
parse_bytecode-marks m pc st st' h =
    let (s, _, run) = >>=-eq-ok (enter pc st) _ h in
    walk-marks (length s.is_visited + 1) m pc s st' (omega (arith, unvisited-length s.is_visited))
      run

handlers-Onward :
    (m : Method) (handlers : List ℕ) (st : State)
    → Onward visits (visits st) (parse_handler_code m handlers st)
unfolding parse_handler_code
handlers-Onward m [] st = ok-Onward Keeps-refl
handlers-Onward m (pc ∷ handlers) st =
    bind-Onward_of (push_word m.max_stack yes_ref []) _ (push_word-Ends m.max_stack yes_ref [])
      (λ stack _.
        bind-Onward (parse_bytecode m pc (record st { stack = stack })) _
          (parse_bytecode-Onward m pc (record st { stack = stack }))
          (λ st' h. Onward-from h (handlers-Onward m handlers st')))

handlers-marks :
    (m : Method) (handlers : List ℕ) (st st' : State)
    → parse_handler_code m handlers st ≡ ok st'
    → (pc : ℕ) → Memᴰ pc handlers
    → get_elem? st'.is_visited pc ≡ some true
unfolding parse_handler_code
handlers-marks m [] st st' h pc there = elim there [ ]
handlers-marks m (x ∷ handlers) st st' h pc there =
    let (stack, _, h₁) = >>=-eq-ok (push_word m.max_stack yes_ref []) _ h in
    let (s, first, rest) = >>=-eq-ok (parse_bytecode m x (record st { stack = stack })) _ h₁ in
    elim there [
      | Memᴰ.head e ↦ ((handlers-Onward m handlers s).keeps st' rest).stays pc (
          subst (λ k. get_elem? s.is_visited k ≡ some true) (sym e)
            (parse_bytecode-marks m x (record st { stack = stack }) s first))
      | Memᴰ.tail later ↦ handlers-marks m handlers s st' rest pc later
    ]

-- The prepass ends on every method, whatever its code, its constant pool, its handlers and the marks
-- at the start are, so the fuel of each walk is enough. If it succeeds, every instruction that was
-- marked as visited at the start still is, no more instructions are unvisited than at the start, and
-- the first instruction of the method and those of its handlers are marked.
pub prepass_bytecode-Ends :
    (m : Method) (handlers : List ℕ) (is_visited is_target : List Bool)
    → Ends (prepass_bytecode m handlers is_visited is_target)
      × ((st : State)
          → prepass_bytecode m handlers is_visited is_target ≡ ok st
          → Keeps is_visited st.is_visited
            × ((pc : ℕ) → Memᴰ pc (0 ∷ handlers) → get_elem? st.is_visited pc ≡ some true))
unfolding prepass_bytecode
prepass_bytecode-Ends m handlers is_visited is_target =
    let st : State = record { is_visited = is_visited; is_target = is_target; stack = [] } in
    let h : Onward visits (visits st) (prepass_bytecode m handlers is_visited is_target) =
      bind-Onward (parse_bytecode m 0 st) (parse_handler_code m handlers)
        (parse_bytecode-Onward m 0 st)
        (λ st' le. Onward-from le (handlers-Onward m handlers st')) in
    (
      h.ends,
      λ st' run.
          let (s, first, rest) =
            >>=-eq-ok (parse_bytecode m 0 st) (parse_handler_code m handlers) run in
          (
            h.keeps st' run,
            λ pc there. elim there [
              | Memᴰ.head e ↦ ((handlers-Onward m handlers s).keeps st' rest).stays pc (
                  subst (λ k. get_elem? s.is_visited k ≡ some true) (sym e)
                    (parse_bytecode-marks m 0 st s first))
              | Memᴰ.tail later ↦ handlers-marks m handlers s st' rest pc later
            ],
          ),
    )
