-- ===== src/ClassFile/Pool.antt =====
-- The constant pool (`parse_constant_pool` of korp_src/class/class_parse.cpp). The loop over the
-- slots writes them in order, so the pool is the list of what it writes.
use mini_jvm.Common.{
  ℕ, zero, suc, ◌+◌, ◌-◌, ◌*◌, ◌%◌, ◌^◌, List, [], ◌∷◌, Bool, true, false, not, ◌&&◌, ◌||◌, ◌==◌,
  if◌then◌else◌, ltb, get_elem?, set, Run, ok, fault, out_of_bounds, out_of_fuel, reported, ◌>>=◌,
  ◌>>◌, require, deref,
}
use mini_jvm.StringPool.{StringPool, string_pool_lookup}
use mini_jvm.ClassFile.{
  Slot, tag_array, uint16_object, uint16_pair, int_object, long_object, string_object, ref_pair,
  member_object, Entry, readbytes,
}

-- The bytes of a Utf8 entry; a zero byte ends the parse.
unfoldable pub read_chars : ℕ → List ℕ → Run (List ℕ × List ℕ)
read_chars zero buf = ok ([], buf)
read_chars (suc n) buf = do
  (c, buf) ← readbytes 1 buf
  require (not (c == 0))
  (chars, buf) ← read_chars n buf
  ok (c ∷ chars, buf)

-- One turn of the loop: the slot, whether it takes two, the pool of strings and the rest.
pub record Parsed : Type 0 where
  pub slot : Slot
  pub wide : Bool
  pub pool : StringPool
  pub buf : List ℕ

unfoldable pub parse_index : StringPool → List ℕ → Run Parsed
parse_index pool buf = do
  (result, buf) ← readbytes 2 buf
  ok (record { slot = uint16_object result; wide = false; pool = pool; buf = buf })

unfoldable pub parse_pair : StringPool → List ℕ → Run Parsed
parse_pair pool buf = do
  (first, buf) ← readbytes 2 buf
  (second, buf) ← readbytes 2 buf
  ok (record { slot = uint16_pair first second; wide = false; pool = pool; buf = buf })

unfoldable pub parse_int : StringPool → List ℕ → Run Parsed
parse_int pool buf = do
  (result, buf) ← readbytes 4 buf
  ok (record { slot = int_object result; wide = false; pool = pool; buf = buf })

-- `*(uint64 *)quat`, on a little-endian machine.
unfoldable pub parse_long : StringPool → List ℕ → Run Parsed
parse_long pool buf = do
  (high, buf) ← readbytes 4 buf
  (low, buf) ← readbytes 4 buf
  ok (record { slot = long_object (high * 2 ^ 32 + low); wide = true; pool = pool; buf = buf })

unfoldable pub parse_utf8 : StringPool → List ℕ → Run Parsed
parse_utf8 pool buf = do
  (result, buf) ← readbytes 2 buf
  (chars, buf) ← read_chars result buf
  (s, pool) ← string_pool_lookup pool chars
  ok (record { slot = string_object s; wide = false; pool = pool; buf = buf })

-- `switch( tag )`
unfoldable pub parse_entry : ℕ → StringPool → List ℕ → Run Parsed
parse_entry tag pool buf =
    if tag == 7 || tag == 8
    then parse_index pool buf
    else if tag == 9 || (tag == 10 || (tag == 11 || tag == 12))
    then parse_pair pool buf
    else if tag == 3 || tag == 4
    then parse_int pool buf
    else if tag == 5 || tag == 6
    then parse_long pool buf
    else if tag == 1
    then parse_utf8 pool buf
    else fault reported

-- The slots that are left to fill behind an entry; the second half of a wide one must have its
-- slot.
unfoldable pub left_behind : Bool → ℕ → Run ℕ
left_behind false n = ok n
left_behind true zero = fault out_of_bounds
left_behind true (suc n) = ok n

unfoldable pub entries_of : ℕ → Slot → Bool → List Entry → List Entry
entries_of tag slot false rest = record { tag = tag; slot = slot } ∷ rest
entries_of tag slot true rest =
    record { tag = tag; slot = slot } ∷ record { tag = tag; slot = slot } ∷ rest

-- The first loop, with fuel and the number of slots that are left.
unfoldable pub parse_slots : ℕ → ℕ → StringPool → List ℕ → Run (List Entry × StringPool × List ℕ)
unfolding left_behind
parse_slots fuel zero pool buf = ok ([], pool, buf)
parse_slots zero (suc n) pool buf = fault out_of_fuel
parse_slots (suc k) (suc n) pool buf = do
  (tag, buf) ← readbytes 1 buf
  p ← parse_entry tag pool buf
  n ← left_behind p.wide n
  (rest, pool, buf) ← parse_slots k n p.pool p.buf
  ok (entries_of tag p.slot p.wide rest, pool, buf)

-- The casts of the second loop; a `korp_short` holds 32 bits.
unfoldable pub as_uint16 : Slot → Run ℕ
as_uint16 (uint16_object n) = ok n
as_uint16 tag_array = fault out_of_bounds
as_uint16 (uint16_pair m n) = fault out_of_bounds
as_uint16 (int_object n) = fault out_of_bounds
as_uint16 (long_object n) = fault out_of_bounds
as_uint16 (string_object s) = fault out_of_bounds
as_uint16 (ref_pair a b) = fault out_of_bounds
as_uint16 (member_object n d) = fault out_of_bounds

unfoldable pub as_2uint16 : Slot → Run (ℕ × ℕ)
as_2uint16 (uint16_pair m n) = ok (m, n)
as_2uint16 tag_array = fault out_of_bounds
as_2uint16 (uint16_object n) = fault out_of_bounds
as_2uint16 (int_object n) = fault out_of_bounds
as_2uint16 (long_object n) = fault out_of_bounds
as_2uint16 (string_object s) = fault out_of_bounds
as_2uint16 (ref_pair a b) = fault out_of_bounds
as_2uint16 (member_object n d) = fault out_of_bounds

-- `tags->value[result]` with `cpool->value[result]`
unfoldable pub entry_at : List Entry → ℕ → Run Entry
entry_at cpool i = deref out_of_bounds (get_elem? cpool i)

-- `|= RESOLVED_MASK` of a tag that is below 0x80
abbrev pub resolved_mask : ℕ
resolved_mask = 0x80

unfoldable pub link_name : List Entry → ℕ → Slot → Run Entry
link_name cpool tag slot = do
  n ← as_uint16 slot
  r ← entry_at cpool n
  require (r.tag % 16 == 1)
  ok (record { tag = tag; slot = r.slot })

unfoldable pub link_member : List Entry → ℕ → Slot → Run Entry
link_member cpool tag slot = do
  (a, b) ← as_2uint16 slot
  r ← entry_at cpool a
  require (r.tag == 7)
  r ← entry_at cpool b
  require (r.tag % 16 == 12)
  ok (record { tag = tag; slot = slot })

-- The second check reads `result` again, not `c`.
unfoldable pub link_name_and_type : List Entry → ℕ → Slot → Run Entry
link_name_and_type cpool tag slot = do
  (result, c) ← as_2uint16 slot
  r ← entry_at cpool result
  require (r.tag % 16 == 1)
  require (r.tag % 16 == 1)
  d ← entry_at cpool c
  ok (record { tag = tag + resolved_mask; slot = ref_pair r.slot d.slot })

unfoldable pub link_entry : List Entry → Entry → Run Entry
link_entry cpool e =
    if e.tag == 8
    then link_name cpool (8 + resolved_mask) e.slot
    else if e.tag == 7
    then link_name cpool 7 e.slot
    else if e.tag == 9 || (e.tag == 10 || e.tag == 11)
    then link_member cpool e.tag e.slot
    else if e.tag == 12
    then link_name_and_type cpool 12 e.slot
    else ok e

-- The second loop, of `n` slots from `i` on.
unfoldable pub link_slots : ℕ → ℕ → List Entry → Run (List Entry)
link_slots zero i cpool = ok cpool
link_slots (suc n) i cpool = do
  e ← entry_at cpool i
  e' ← link_entry cpool e
  link_slots n (i + 1) (set cpool i e')

-- The header keeps 15 bits of an array's length: a longer pool is written past its end, as is slot
-- 0 of an empty one.
unfoldable pub new_pool : ℕ → Run (Unit {0})
new_pool cp_size = if ltb 0 cp_size && ltb cp_size (2 ^ 15) then ok tt else fault out_of_bounds

unfoldable pub parse_constant_pool : StringPool → List ℕ → Run (List Entry × StringPool × List ℕ)
parse_constant_pool pool buf = do
  (cp_size, buf) ← readbytes 2 buf
  new_pool cp_size
  (slots, pool, buf) ← parse_slots (cp_size - 1) (cp_size - 1) pool buf
  cpool ← link_slots (cp_size - 1) 1 (record { tag = 0; slot = tag_array } ∷ slots)
  ok (cpool, pool, buf)
