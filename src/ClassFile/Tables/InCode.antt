-- ===== src/ClassFile/Tables/InCode.antt =====
-- What the readers of the tables (korp_src/class/class_parse.cpp) accept.
use mini_jvm.Common.{
  ℕ, zero, suc, ◌+◌, ◌^◌, ◌≤◌, ◌≡◌, refl, sym, ap, subst, List, true, not, ◌||◌, length, ltb, arith,
  Bool-cases, inl, inr, All, Run, ok, reported, require, deref, require-ok, ok-injective, >>=-eq-ok,
}
use mini_jvm.ClassFile.{Entry, readbytes, cp_utf8_read_string}
use mini_jvm.ClassFile.Tables.{
  table_loop, parse_table, Handler, parse_handler, parse_handlers, Linenum, parse_linenum,
  parse_linenumtable, Localvar, parse_localvar, parse_localvartable,
}

module _ {A : Type 0} (parse_item : List ℕ → Run (A × List ℕ)) (P : A → Type 0)
    (each : (buf : List ℕ) (r : A × List ℕ) → parse_item buf ≡ ok r → P r.0) where
  table_loop-All :
      (n : ℕ) (buf : List ℕ) (r : List A × List ℕ)
      → table_loop parse_item n buf ≡ ok r
      → (length r.0 ≡ n) × All P r.0
  unfolding table_loop
  table_loop-All zero buf r h =
      subst (λ (x : List A × List ℕ). (length x.0 ≡ 0) × All P x.0) (ok-injective h) (refl, tt)
  table_loop-All (suc n) buf r h =
      let (i, run, h₁) = >>=-eq-ok (parse_item buf) _ h in
      let (t, rest, h₂) = >>=-eq-ok (table_loop parse_item n i.1) _ h₁ in
      let (l, a) = table_loop-All n i.1 t rest in
      subst (λ (x : List A × List ℕ). (length x.0 ≡ suc n) × All P x.0) (ok-injective h₂)
        (ap suc l, (each buf i run, a))

  parse_table-TableOf :
      (buf : List ℕ) (r : List A × List ℕ)
      → parse_table parse_item buf ≡ ok r
      → ((rest : List ℕ) × (readbytes 2 buf ≡ ok (length r.0, rest))) × All P r.0
  unfolding parse_table
  parse_table-TableOf buf r h =
      let (n, read, h₁) = >>=-eq-ok (readbytes 2 buf) _ h in
      elim (Bool-cases (ltb n.0 (2 ^ 15))) [
        | inl b ↦
            let (l, a) = table_loop-All n.0 n.1 r (rw b at h₁) in
            ((n.1, subst (λ k. readbytes 2 buf ≡ ok (k, n.1)) (sym l) read), a)
        | inr b ↦ let z = rw b at h₁ in absurd (cc)
      ]

abbrev pub HandlerInCode : ℕ → Handler → Type 0
HandlerInCode byte_code_length h = (h.start_pc ≤ h.end_pc) × (h.end_pc ≤ byte_code_length)

handler-InCode :
    (n : ℕ) (buf : List ℕ) (r : Handler × List ℕ) → parse_handler n buf ≡ ok r → HandlerInCode n r.0
unfolding parse_handler
handler-InCode n buf r h =
    let (s, _, h₁) = >>=-eq-ok (readbytes 2 buf) _ h in
    let (e, _, h₂) = >>=-eq-ok (readbytes 2 s.1) _ h₁ in
    let (p, _, h₃) = >>=-eq-ok (readbytes 2 e.1) _ h₂ in
    let (c, _, h₄) = >>=-eq-ok (readbytes 2 p.1) _ h₃ in
    let (_, g, h₅) = >>=-eq-ok (require _) _ h₄ in
    let t : not (ltb e.0 s.0 || (ltb n s.0 || ltb n e.0)) ≡ true = require-ok _ g in
    subst (λ (x : Handler × List ℕ). HandlerInCode n x.0) (ok-injective h₅)
      (ground arith, ground arith)

linenum-InCode :
    (n : ℕ) (buf : List ℕ) (r : Linenum × List ℕ) → parse_linenum n buf ≡ ok r → (r.0).start_pc ≤ n
unfolding parse_linenum
linenum-InCode n buf r h =
    let (s, _, h₁) = >>=-eq-ok (readbytes 2 buf) _ h in
    let (e, _, h₂) = >>=-eq-ok (readbytes 2 s.1) _ h₁ in
    let (_, g, h₃) = >>=-eq-ok (require _) _ h₂ in
    let t : not (ltb n s.0) ≡ true = require-ok _ g in
    subst (λ (x : Linenum × List ℕ). (x.0).start_pc ≤ n) (ok-injective h₃) (ground arith)

abbrev pub LocalvarInCode : ℕ → ℕ → Localvar → Type 0
LocalvarInCode byte_code_length max_locals v =
    (v.start_pc + v.length ≤ byte_code_length) × (v.index ≤ max_locals)

localvar-InCode :
    (cpool : List Entry) (n m : ℕ) (buf : List ℕ) (r : Localvar × List ℕ)
    → parse_localvar cpool n m buf ≡ ok r
    → LocalvarInCode n m r.0
unfolding parse_localvar
localvar-InCode cpool n m buf r h =
    let (s, _, h₁) = >>=-eq-ok (readbytes 2 buf) _ h in
    let (l, _, h₂) = >>=-eq-ok (readbytes 2 s.1) _ h₁ in
    let (a, _, h₃) = >>=-eq-ok (cp_utf8_read_string cpool l.1) _ h₂ in
    let (_, _, h₄) = >>=-eq-ok (deref reported a.0) _ h₃ in
    let (b, _, h₅) = >>=-eq-ok (cp_utf8_read_string cpool a.1) _ h₄ in
    let (_, _, h₆) = >>=-eq-ok (deref reported b.0) _ h₅ in
    let (i, _, h₇) = >>=-eq-ok (readbytes 2 b.1) _ h₆ in
    let (_, g, h₈) = >>=-eq-ok (require _) _ h₇ in
    let t : not (ltb n s.0 || (ltb n (s.0 + l.0) || ltb m i.0)) ≡ true = require-ok _ g in
    subst (λ (x : Localvar × List ℕ). LocalvarInCode n m x.0) (ok-injective h₈)
      (ground arith, ground arith)

-- An exception table that `parse_handlers` accepts has the length that the file states, and every
-- handler of it covers a range, not reversed, that ends inside the code.
pub parse_handlers-InCode :
    (byte_code_length : ℕ) (buf : List ℕ) (r : List Handler × List ℕ)
    → parse_handlers byte_code_length buf ≡ ok r
    → ((rest : List ℕ) × (readbytes 2 buf ≡ ok (length r.0, rest)))
      × All (HandlerInCode byte_code_length) r.0
unfolding parse_handlers
parse_handlers-InCode n buf r h =
    parse_table-TableOf (parse_handler n) (HandlerInCode n) (handler-InCode n) buf r h

-- A line number table that is accepted has the length that the file states and starts every line
-- inside the code.
pub parse_linenumtable-InCode :
    (byte_code_length : ℕ) (buf : List ℕ) (r : List Linenum × List ℕ)
    → parse_linenumtable byte_code_length buf ≡ ok r
    → ((rest : List ℕ) × (readbytes 2 buf ≡ ok (length r.0, rest)))
      × All (λ (l : Linenum). l.start_pc ≤ byte_code_length) r.0
unfolding parse_linenumtable
parse_linenumtable-InCode n buf r h =
    parse_table-TableOf (parse_linenum n) (λ l. l.start_pc ≤ n) (linenum-InCode n) buf r h

-- A local variable table that is accepted has the length that the file states; every range of it
-- ends inside the code, and every index is at most `max_locals`.
pub parse_localvartable-InCode :
    (cpool : List Entry) (byte_code_length max_locals : ℕ) (buf : List ℕ)
    (r : List Localvar × List ℕ)
    → parse_localvartable cpool byte_code_length max_locals buf ≡ ok r
    → ((rest : List ℕ) × (readbytes 2 buf ≡ ok (length r.0, rest)))
      × All (LocalvarInCode byte_code_length max_locals) r.0
unfolding parse_localvartable
parse_localvartable-InCode cpool n m buf r h =
    parse_table-TableOf (parse_localvar cpool n m) (LocalvarInCode n m) (localvar-InCode cpool n m)
      buf r h
