-- ===== src/ClassFile/Tables/Constant.antt =====
-- The constants that `parse_constant` (korp_src/class/class_parse.cpp) refuses.
use mini_jvm.Common.{
  ℕ, ◌%◌, ◌<◌, ◌≡◌, ◌≢◌, List, false, ◌==◌, length, ltb, get_elem?, get_elem?-lt, arith, some, ok,
  fault, reported,
}
use mini_jvm.StringPool.{StringPool}
use mini_jvm.ClassFile.{Entry, readbytes}
use mini_jvm.ClassFile.Pool.{entry_at, parse_constant_pool}
use mini_jvm.ClassFile.Linked.{parse_constant_pool-Linked}
use mini_jvm.ClassFile.Tables.{constant_value, parse_constant}

-- No case is the one of a String whose tag carries the bit of a resolved entry.
string_refused :
    (cpool : List Entry) (t : ℕ) (e : Entry)
    → e.tag % 16 ≡ 8
    → e.tag ≢ 8
    → constant_value cpool t e ≡ fault reported
unfolding constant_value
string_refused cpool t e string ne =
    let other : (k : ℕ) → k < 8 → (e.tag == k) ≡ false = λ k l. ground arith in
    let resolved : (e.tag == 8) ≡ false = ground arith in
    rw (
      other 5 (omega arith),
      other 4 (omega arith),
      other 6 (omega arith),
      other 3 (omega arith),
      resolved,
    )

-- In a constant pool that `parse_constant_pool` has accepted, `parse_constant` refuses every constant
-- whose index is that of a String entry, whatever the type of the field.
pub parse_constant-string_refused :
    (pool : StringPool) (file : List ℕ) (cpool : List Entry) (pool' : StringPool) (file' : List ℕ)
    → parse_constant_pool pool file ≡ ok (cpool, pool', file')
    → (field_type : ℕ) (buf : List ℕ) (i : ℕ) (rest : List ℕ) (e : Entry)
    → readbytes 2 buf ≡ ok (i, rest)
    → get_elem? cpool i ≡ some e
    → e.tag % 16 ≡ 8
    → parse_constant cpool field_type buf ≡ fault reported
unfolding parse_constant entry_at
parse_constant-string_refused pool file cpool pool' file' h t buf i rest e read at string =
    let inside : ltb (length cpool) i ≡ false = ground (arith, get_elem?-lt cpool i at) in
    let ne : e.tag ≢ 8 = ((parse_constant_pool-Linked pool file cpool pool' file' h).1 i e at).1 in
    rw (read, inside, at, string_refused cpool t e string ne)
