-- ===== src/PoolTypes.antt =====
-- What the compiler asks the constant pool (korp_src/class/vm_interface.cpp): the type of a constant
-- and of a field, and the descriptor of a method.
use mini_jvm.Common.{
  ℕ, ◌%◌, List, Bool, ◌==◌, if◌then◌else◌, Run, ok, fault, out_of_bounds, ◌>>=◌, has_bit,
}
use mini_jvm.StringPool.{KString}
use mini_jvm.ClassFile.{
  Slot, tag_array, uint16_object, uint16_pair, int_object, long_object, string_object, ref_pair,
  member_object, Entry, as_string,
}
use mini_jvm.ClassFile.Pool.{as_2uint16, entry_at}
use mini_jvm.Prepare.{java_type}

-- `cp_is_resolved`
abbrev pub is_resolved : Entry → Bool
is_resolved e = has_bit e.tag 7

-- The `korp_java_type` of a constant: JAVA_TYPE_STRING, INT, FLOAT, LONG, DOUBLE or WRONG.
unfoldable pub cp_get_const_type : List Entry → ℕ → Run ℕ
cp_get_const_type cpool index = do
  e ← entry_at cpool index
  let tag = e.tag % 16
  ok (
      if tag == 8
      then b'$'
      else if tag == 3
      then b'I'
      else if tag == 4
      then b'F'
      else if tag == 5
      then b'J'
      else if tag == 6
      then b'D'
      else 0)

unfoldable pub descriptor_of_member : Slot → Run KString
descriptor_of_member (member_object n d) = ok d
descriptor_of_member tag_array = fault out_of_bounds
descriptor_of_member (uint16_object n) = fault out_of_bounds
descriptor_of_member (uint16_pair m n) = fault out_of_bounds
descriptor_of_member (int_object n) = fault out_of_bounds
descriptor_of_member (long_object n) = fault out_of_bounds
descriptor_of_member (string_object s) = fault out_of_bounds
descriptor_of_member (ref_pair a b) = fault out_of_bounds

-- `(korp_string*)((korp_2ref *)cpool->value[index])->value[1]`
unfoldable pub second_ref : Slot → Run KString
unfolding as_string
second_ref (ref_pair a b) = as_string b
second_ref tag_array = fault out_of_bounds
second_ref (uint16_object n) = fault out_of_bounds
second_ref (uint16_pair m n) = fault out_of_bounds
second_ref (int_object n) = fault out_of_bounds
second_ref (long_object n) = fault out_of_bounds
second_ref (string_object s) = fault out_of_bounds
second_ref (member_object n d) = fault out_of_bounds

-- The descriptor of a field or of a method: of a resolved one its own, otherwise the one that the
-- NameAndType of the reference names. Any other object in a slot is a type confusion.
unfoldable pub cp_get_method_descriptor : List Entry → ℕ → Run KString
unfolding second_ref descriptor_of_member
cp_get_method_descriptor cpool index = do
  e ← entry_at cpool index
  let unresolved = (do (_, index) ← as_2uint16 e.slot; n ← entry_at cpool index; second_ref n.slot)
  if is_resolved e then descriptor_of_member e.slot else unresolved

unfoldable pub cp_get_field_type : List Entry → ℕ → Run ℕ
unfolding cp_get_method_descriptor
cp_get_field_type cpool index = do
  descriptor ← cp_get_method_descriptor cpool index
  ok (java_type descriptor.byte)
