-- ===== src/ClassFile/Tables.antt =====
-- The tables of a method's code and the constant of a field (korp_src/class/class_parse.cpp).
pub mod InCode
pub mod Constant
use mini_jvm.Common.{
  ℕ, zero, suc, ◌+◌, ◌-◌, ◌%◌, ◌^◌, List, [], ◌∷◌, Bool, true, false, not, ◌&&◌, ◌||◌, ◌==◌,
  if◌then◌else◌, length, ltb, get_elem?, Option, none, some, Run, ok, fault, out_of_bounds,
  reported, ◌>>=◌, ◌>>◌, require, deref,
}
use mini_jvm.StringPool.{KString}
use mini_jvm.ClassFile.{Slot, Entry, readbytes, cp_utf8_read_string}
use mini_jvm.ClassFile.Pool.{as_uint16, entry_at}

module _ {A : Type 0} (parse_item : List ℕ → Run (A × List ℕ)) where
  unfoldable pub table_loop : ℕ → List ℕ → Run (List A × List ℕ)
  table_loop zero buf = ok ([], buf)
  table_loop (suc n) buf = do
    (item, buf) ← parse_item buf
    (rest, buf) ← table_loop n buf
    ok (item ∷ rest, buf)

  -- `num`, a new array and the loop that fills it; from 2 ^ 15 elements on the array's length is
  -- short in its header, and the loop runs out of it.
  unfoldable pub parse_table : List ℕ → Run (List A × List ℕ)
  parse_table buf = do
    (num, buf) ← readbytes 2 buf
    if ltb num (2 ^ 15) then table_loop num buf else fault out_of_bounds

pub record Handler : Type 0 where
  pub start_pc : ℕ
  pub end_pc : ℕ
  pub handler_pc : ℕ
  pub class_type_index : ℕ

unfoldable pub parse_handler : ℕ → List ℕ → Run (Handler × List ℕ)
parse_handler byte_code_length buf = do
  (start_pc, buf) ← readbytes 2 buf
  (end_pc, buf) ← readbytes 2 buf
  (handler_pc, buf) ← readbytes 2 buf
  (class_type_index, buf) ← readbytes 2 buf
  require
      (not (ltb end_pc start_pc || (ltb byte_code_length start_pc || ltb byte_code_length end_pc)))
  ok (
    record {
      start_pc = start_pc;
      end_pc = end_pc;
      handler_pc = handler_pc;
      class_type_index = class_type_index;
    },
    buf,
  )

-- No table is allocated for the length 0, which leaves none.
unfoldable pub parse_handlers : ℕ → List ℕ → Run (List Handler × List ℕ)
parse_handlers byte_code_length buf = parse_table (parse_handler byte_code_length) buf

pub record Linenum : Type 0 where
  pub start_pc : ℕ
  pub line_num : ℕ

unfoldable pub parse_linenum : ℕ → List ℕ → Run (Linenum × List ℕ)
parse_linenum byte_code_length buf = do
  (start_pc, buf) ← readbytes 2 buf
  (line_num, buf) ← readbytes 2 buf
  require (not (ltb byte_code_length start_pc))
  ok (record { start_pc = start_pc; line_num = line_num }, buf)

unfoldable pub parse_linenumtable : ℕ → List ℕ → Run (List Linenum × List ℕ)
parse_linenumtable byte_code_length buf = parse_table (parse_linenum byte_code_length) buf

pub record Localvar : Type 0 where
  pub start_pc : ℕ
  pub length : ℕ
  pub name : KString
  pub descriptor : KString
  pub index : ℕ

unfoldable pub parse_localvar : List Entry → ℕ → ℕ → List ℕ → Run (Localvar × List ℕ)
parse_localvar cpool byte_code_length max_locals buf = do
  (start_pc, buf) ← readbytes 2 buf
  (len, buf) ← readbytes 2 buf
  (str, buf) ← cp_utf8_read_string cpool buf
  name ← deref reported str
  (str, buf) ← cp_utf8_read_string cpool buf
  descriptor ← deref reported str
  (index, buf) ← readbytes 2 buf
  require (
      not (
        ltb byte_code_length start_pc
        || (ltb byte_code_length (start_pc + len) || ltb max_locals index)))
  ok (
    record {
      start_pc = start_pc;
      length = len;
      name = name;
      descriptor = descriptor;
      index = index;
    },
    buf,
  )

unfoldable pub parse_localvartable : List Entry → ℕ → ℕ → List ℕ → Run (List Localvar × List ℕ)
parse_localvartable cpool byte_code_length max_locals buf =
    parse_table (parse_localvar cpool byte_code_length max_locals) buf

-- What a field keeps of its `ConstantValue`: a copy of the number in a slot, or, since the case of a
-- String reads its object through a `korp_ref`, the word behind the header of the object in a slot.
pub data Constval : Type 0 where
  copy_of : Slot → Constval
  first_word : Slot → Constval

-- The `ConstantValue` of a field whose descriptor starts with `field_type`.
unfoldable pub constant_value : List Entry → ℕ → Entry → Run Constval
constant_value cpool field_type e =
    if e.tag == 5
    then (do require (field_type == b'J'); ok (copy_of e.slot))
    else if e.tag == 4
    then (do require (field_type == b'F'); ok (copy_of e.slot))
    else if e.tag == 6
    then (do require (field_type == b'D'); ok (copy_of e.slot))
    else if e.tag == 3
    then (do
      require (
          field_type == b'I'
          || (field_type == b'S'
              || (field_type == b'Z' || (field_type == b'B' || field_type == b'C'))))
      ok (copy_of e.slot))
    else if e.tag == 8
    then (do
      require (field_type == b'L')
      n ← as_uint16 e.slot
      r ← entry_at cpool n
      ok (first_word r.slot))
    else fault reported

unfoldable pub parse_constant : List Entry → ℕ → List ℕ → Run (Constval × List ℕ)
parse_constant cpool field_type buf = do
  (cp_index, buf) ← readbytes 2 buf
  require (not (ltb (length cpool) cp_index))
  e ← entry_at cpool cp_index
  constval ← constant_value cpool field_type e
  ok (constval, buf)
