-- ===== src/ClassFile.antt =====
-- The reader of class files (korp_src/class/class_parse.cpp): the bytes, the constant pool's
-- entries and the class's header. A `class_buffer` is the list of the bytes from `pos` to the end.
pub mod Pool
pub mod Linked
pub mod Readers
pub mod Bytes
pub mod Tables
mod Tests
use mini_jvm.Common.{
  ℕ, zero, suc, ◌+◌, ◌*◌, ◌%◌, ◌^◌, List, [], ◌∷◌, Bool, true, false, not, ◌&&◌, ◌||◌, ◌==◌,
  if◌then◌else◌, length, ltb, get_elem?, Option, none, some, Run, ok, fault, out_of_bounds,
  reported, ◌>>=◌, ◌>>◌, assert, require, deref,
}
use mini_jvm.StringPool.{KString}

-- What a slot of the constant pool points to: the array of the tags, a `korp_uint16`, a
-- `korp_2uint16`, a `korp_int`, a `korp_long`, a `korp_string`, a `korp_2ref`, or a resolved field or
-- method, here by its name and its descriptor.
pub data Slot : Type 0 where
  tag_array : Slot
  uint16_object : ℕ → Slot
  uint16_pair : ℕ → ℕ → Slot
  int_object : ℕ → Slot
  long_object : ℕ → Slot
  string_object : KString → Slot
  ref_pair : Slot → Slot → Slot
  member_object : KString → KString → Slot

-- `cpool->value[i]` with `tags->value[i]`.
pub record Entry : Type 0 where
  pub tag : ℕ
  pub slot : Slot

unfoldable pub read_loop : ℕ → ℕ → List ℕ → Run (ℕ × List ℕ)
read_loop zero result pos = ok (result, pos)
read_loop (suc n) result [] = fault out_of_bounds
read_loop (suc n) result (c ∷ pos) = read_loop n ((result * 2 ^ 8 + c) % 2 ^ 32) pos

unfoldable pub readbytes : ℕ → List ℕ → Run (ℕ × List ℕ)
readbytes num pos = do
  assert (ltb 0 num && ltb num 5)
  require (not (ltb (length pos) num))
  read_loop num 0 pos

-- A slot used as a `korp_string*`; any other object there is a type confusion.
unfoldable pub as_string : Slot → Run KString
as_string tag_array = fault out_of_bounds
as_string (uint16_object n) = fault out_of_bounds
as_string (uint16_pair m n) = fault out_of_bounds
as_string (int_object n) = fault out_of_bounds
as_string (long_object n) = fault out_of_bounds
as_string (string_object s) = ok s
as_string (ref_pair a b) = fault out_of_bounds
as_string (member_object n d) = fault out_of_bounds

-- The index 0 gives no string.
unfoldable pub cp_class_read_name : List Entry → List ℕ → Run (Option KString × List ℕ)
unfolding as_string
cp_class_read_name cpool buf = do
  (cp_index, buf) ← readbytes 2 buf
  require (not (ltb (length cpool) cp_index))
  let named = (do
    e ← deref out_of_bounds (get_elem? cpool cp_index)
    require (e.tag == 7)
    s ← as_string e.slot
    ok (some s, buf))
  if cp_index == 0 then ok (none, buf) else named

unfoldable pub cp_utf8_read_string : List Entry → List ℕ → Run (Option KString × List ℕ)
unfolding as_string
cp_utf8_read_string cpool buf = do
  (cp_index, buf) ← readbytes 2 buf
  require (not (ltb (length cpool) cp_index))
  let named = (do
    e ← deref out_of_bounds (get_elem? cpool cp_index)
    require (e.tag % 16 == 1)
    s ← as_string e.slot
    ok (some s, buf))
  if cp_index == 0 then ok (none, buf) else named

-- The modifier, the name and the descriptor of a field or method.
pub record Member : Type 0 where
  pub modifier : ℕ
  pub name : KString
  pub descriptor : KString

unfoldable pub parse_class_member : List Entry → List ℕ → Run (Member × List ℕ)
parse_class_member cpool buf = do
  (modifier, buf) ← readbytes 2 buf
  (name, buf) ← cp_utf8_read_string cpool buf
  name ← deref reported name
  (descriptor, buf) ← cp_utf8_read_string cpool buf
  descriptor ← deref reported descriptor
  ok (record { modifier = modifier; name = name; descriptor = descriptor }, buf)

-- `kclass->name != kclassname` compares addresses; a missing name is the null pointer.
unfoldable pub same_string : KString → Option KString → Bool
same_string s none = false
same_string s (some t) = s.addr == t.addr

unfoldable pub parse_this_class :
    Option KString → List Entry → List ℕ → Run (Option KString × List ℕ)
parse_this_class name cpool buf = do
  (kclassname, buf) ← cp_class_read_name cpool buf
  elim name [
    | none ↦ ok (kclassname, buf)
    | some n ↦ (do require (same_string n kclassname); ok (some n, buf))
  ]

-- The class's `super_name`, and the rest.
unfoldable pub parse_super_class : List Entry → List ℕ → Run (Option KString × List ℕ)
parse_super_class cpool buf = cp_class_read_name cpool buf

unfoldable pub interface_names : ℕ → List Entry → List ℕ → Run (List KString × List ℕ)
interface_names zero cpool buf = ok ([], buf)
interface_names (suc n) cpool buf = do
  (intfc_name, buf) ← cp_class_read_name cpool buf
  intfc_name ← deref reported intfc_name
  (rest, buf) ← interface_names n cpool buf
  ok (intfc_name ∷ rest, buf)

-- An array of 2 ^ 15 elements or more has a short length in its header, and is written past its
-- end.
unfoldable pub parse_interfaces : List Entry → List ℕ → Run (List KString × List ℕ)
parse_interfaces cpool buf = do
  (num, buf) ← readbytes 2 buf
  if ltb num (2 ^ 15) then interface_names num cpool buf else fault out_of_bounds
