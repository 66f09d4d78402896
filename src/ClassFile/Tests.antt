-- ===== src/ClassFile/Tests.antt =====
-- Runs of the class file reader (korp_src/class/class_parse.cpp).
use mini_jvm.Common.{
  ◌<◌, ◌^◌, ◌++◌, reported, ℕ, ◌≡◌, ◌↔◌, refl, List, [], ◌∷◌, arith, length, get_elem?, set, All,
  some, ok, fault, out_of_bounds,
}
use mini_jvm.Hash.{get_chars_hash, bucket_at}
use mini_jvm.StringPool.{
  KString, StringPool, new_string_pool, string_pool_lookup, find_string, new_string,
}
use mini_jvm.ClassFile.{
  tag_array, int_object, string_object, Entry, read_loop, readbytes, cp_class_read_name,
  cp_utf8_read_string,
}
use mini_jvm.ClassFile.Pool.{
  read_chars, parse_index, parse_utf8, parse_entry, entries_of, left_behind, parse_slots, as_uint16,
  entry_at, link_name, link_entry, link_slots, new_pool, parse_constant_pool,
}
use mini_jvm.ClassFile.Linked.Slots.{Named}
use mini_jvm.ClassFile.Linked.{parse_constant_pool-Named}
use mini_jvm.ClassFile.Bytes.{big_endian, readbytes-big_endian}
use mini_jvm.ClassFile.Readers.{cp_class_read_name-out_of_bounds}
use mini_jvm.ClassFile.Tables.{
  table_loop, parse_table, Handler, parse_handler, parse_handlers, Linenum, parse_linenum,
  parse_linenumtable, Localvar, parse_localvar, parse_localvartable, constant_value, parse_constant,
  copy_of,
}
use mini_jvm.ClassFile.Tables.Constant.{parse_constant-string_refused}
use mini_jvm.ClassFile.Tables.InCode.{
  HandlerInCode, parse_handlers-InCode, LocalvarInCode, parse_localvartable-InCode,
}

-- Three slots: the tags, the Utf8 "A" and the Class of that name.
abbrev pool_bytes : List ℕ
pool_bytes = 0 ∷ 3 ∷ 1 ∷ 0 ∷ 1 ∷ b'A' ∷ 7 ∷ 0 ∷ 1 ∷ 9 ∷ []

abbrev a_string : KString
a_string = record { addr = 1; byte = b'A' ∷ [] }

abbrev a_entries : List Entry
a_entries =
    record { tag = 0; slot = tag_array }
    ∷ record { tag = 1; slot = string_object a_string }
    ∷ record { tag = 7; slot = string_object a_string }
    ∷ []

abbrev a_pool : StringPool
a_pool = record { bucket = set new_string_pool.bucket 130 (a_string ∷ []); brk = 2 }

run_pool : parse_constant_pool new_string_pool pool_bytes ≡ ok (a_entries, a_pool, 9 ∷ [])
unfolding parse_constant_pool new_pool readbytes read_loop parse_slots left_behind entries_of
    parse_entry parse_utf8 parse_index read_chars link_slots link_entry link_name entry_at as_uint16
    string_pool_lookup find_string new_string get_chars_hash bucket_at new_string_pool
run_pool = refl

parse_constant_pool-Named_example :
    ((rest : List ℕ) × (readbytes 2 pool_bytes ≡ ok (length a_entries, rest)))
    × ((j : ℕ) (e : Entry) → get_elem? a_entries j ≡ some e → Named e)
parse_constant_pool-Named_example =
    parse_constant_pool-Named new_string_pool pool_bytes a_entries a_pool (9 ∷ []) run_pool

a_entries-Named : (j : ℕ) (e : Entry) → get_elem? a_entries j ≡ some e → Named e
a_entries-Named =
    (parse_constant_pool-Named new_string_pool pool_bytes a_entries a_pool (9 ∷ []) run_pool).1

cp_class_read_name-out_of_bounds_example :
    (cp_class_read_name a_entries (0 ∷ 3 ∷ []) ≡ fault out_of_bounds)
    ↔ ((rest : List ℕ) × (readbytes 2 (0 ∷ 3 ∷ []) ≡ ok (length a_entries, rest)))
cp_class_read_name-out_of_bounds_example =
    cp_class_read_name-out_of_bounds a_entries (0 ∷ 3 ∷ []) a_entries-Named (omega arith)

readbytes-big_endian_example :
    (260 < 2 ^ 8 → readbytes 1 (big_endian 1 260 ++ 9 ∷ []) ≡ ok (260, 9 ∷ []))
    × (260 < 2 ^ 16 → readbytes 2 (big_endian 2 260 ++ 9 ∷ []) ≡ ok (260, 9 ∷ []))
    × (readbytes 4 (big_endian 4 260 ++ 9 ∷ []) ≡ ok (260, 9 ∷ []))
    × ((n : ℕ)
        → 0 < n
        → n < 5
        → length {A = ℕ} (9 ∷ []) < n
        → readbytes n (9 ∷ []) ≡ fault reported)
readbytes-big_endian_example = readbytes-big_endian 260 (9 ∷ []) (omega arith)

abbrev handler_bytes : List ℕ
handler_bytes = 0 ∷ 1 ∷ 0 ∷ 0 ∷ 0 ∷ 4 ∷ 0 ∷ 5 ∷ 0 ∷ 0 ∷ []

abbrev one_handler : List Handler
one_handler = record { start_pc = 0; end_pc = 4; handler_pc = 5; class_type_index = 0 } ∷ []

run_handlers : parse_handlers 8 handler_bytes ≡ ok (one_handler, [])
unfolding parse_handlers parse_table table_loop parse_handler readbytes read_loop
run_handlers = refl

parse_handlers-InCode_example :
    ((rest : List ℕ) × (readbytes 2 handler_bytes ≡ ok (length one_handler, rest)))
    × All (HandlerInCode 8) one_handler
parse_handlers-InCode_example = parse_handlers-InCode 8 handler_bytes (one_handler, []) run_handlers

abbrev linenum_bytes : List ℕ
linenum_bytes = 0 ∷ 1 ∷ 0 ∷ 2 ∷ 1 ∷ 4 ∷ []

abbrev one_linenum : List Linenum
one_linenum = record { start_pc = 2; line_num = 260 } ∷ []

run_linenums : parse_linenumtable 8 linenum_bytes ≡ ok (one_linenum, [])
unfolding parse_linenumtable parse_table table_loop parse_linenum readbytes read_loop
run_linenums = refl

abbrev localvar_bytes : List ℕ
localvar_bytes = 0 ∷ 1 ∷ 0 ∷ 2 ∷ 0 ∷ 6 ∷ 0 ∷ 1 ∷ 0 ∷ 1 ∷ 0 ∷ 3 ∷ []

abbrev one_localvar : List Localvar
one_localvar =
    record { start_pc = 2; length = 6; name = a_string; descriptor = a_string; index = 3 } ∷ []

run_localvars : parse_localvartable a_entries 8 4 localvar_bytes ≡ ok (one_localvar, [])
unfolding parse_localvartable parse_table table_loop parse_localvar readbytes read_loop
    cp_utf8_read_string
run_localvars = refl

parse_localvartable-InCode_example :
    ((rest : List ℕ) × (readbytes 2 localvar_bytes ≡ ok (length one_localvar, rest)))
    × All (LocalvarInCode 8 4) one_localvar
parse_localvartable-InCode_example =
    parse_localvartable-InCode a_entries 8 4 localvar_bytes (one_localvar, []) run_localvars

abbrev number_entries : List Entry
number_entries =
    record { tag = 0; slot = tag_array } ∷ record { tag = 3; slot = int_object 42 } ∷ []

run_constant : parse_constant number_entries b'I' (0 ∷ 1 ∷ []) ≡ ok (copy_of (int_object 42), [])
unfolding parse_constant constant_value entry_at readbytes read_loop
run_constant = refl

-- Three slots: the tags, the Utf8 "A" and the String of it.
abbrev string_bytes : List ℕ
string_bytes = 0 ∷ 3 ∷ 1 ∷ 0 ∷ 1 ∷ b'A' ∷ 8 ∷ 0 ∷ 1 ∷ []

abbrev string_entries : List Entry
string_entries =
    record { tag = 0; slot = tag_array }
    ∷ record { tag = 1; slot = string_object a_string }
    ∷ record { tag = 0x88; slot = string_object a_string }
    ∷ []

run_string_pool : parse_constant_pool new_string_pool string_bytes ≡ ok (string_entries, a_pool, [])
unfolding parse_constant_pool new_pool readbytes read_loop parse_slots left_behind entries_of
    parse_entry parse_utf8 parse_index read_chars link_slots link_entry link_name entry_at as_uint16
    string_pool_lookup find_string new_string get_chars_hash bucket_at new_string_pool
run_string_pool = refl

read_two : readbytes 2 (0 ∷ 2 ∷ []) ≡ ok (2, [])
unfolding readbytes read_loop
read_two = refl

parse_constant-string_refused_example :
    parse_constant string_entries b'L' (0 ∷ 2 ∷ []) ≡ fault reported
parse_constant-string_refused_example =
    parse_constant-string_refused new_string_pool string_bytes string_entries a_pool []
      run_string_pool b'L' (0 ∷ 2 ∷ []) 2 [] (record { tag = 0x88; slot = string_object a_string })
      read_two refl refl
