-- ===== src/StringPool.antt =====
-- The pool of interned strings (korp_src/class/string_pool.cpp). A `korp_string*` is a record of
-- its address, which is all that the code compares elsewhere, and of its bytes without the
-- terminator. A chain of `korp_entry` objects is a list, its head first. The collector's bump
-- allocator hands out `brk`, the next address.
pub mod View
pub mod Intern
pub mod Removal
mod Tests
use mini_jvm.Common.{
  ℕ, ◌+◌, ◌-◌, ◌%◌, ◌^◌, List, [], ◌∷◌, Bool, ◌&&◌, ◌==◌, if◌then◌else◌, length, take, replicate,
  set, ltb, Option, none, some, Run, ok, fault, out_of_bounds, ◌>>=◌,
}
use mini_jvm.Hash.{hash_table_size, get_chars_hash, str_eq, bucket_at}

pub record KString : Type 0 where
  pub addr : ℕ
  pub byte : List ℕ

pub record StringPool : Type 0 where
  pub bucket : List (List KString)
  pub brk : ℕ

unfoldable pub new_string_pool : StringPool
new_string_pool = record { bucket = replicate hash_table_size []; brk = 1 }

-- The header keeps 15 bits of an array's length, and the terminator is not counted; `l` is
-- `uint16`.
unfoldable pub get_string_len : KString → ℕ
get_string_len s = ((length s.byte + 1) % 2 ^ 15 + 2 ^ 16 - 1) % 2 ^ 16

-- `(l==len) && strcmp(string_to_chars(s), chars) == 0`
unfoldable pub is_match : List ℕ → KString → Bool
unfolding get_string_len
is_match chars s = get_string_len s == length chars % 2 ^ 16 && str_eq s.byte chars

unfoldable pub find_string : List ℕ → List KString → Option KString
find_string chars [] = none
find_string chars (s ∷ entry) = if is_match chars s then some s else find_string chars entry

-- `new_vm_array(korp_uint8_array, len+1)` and the `memcpy` of `len+1` bytes: from 2 ^ 15 bytes on
-- the header's length is short, and the copy runs out of the object.
unfoldable pub new_string : StringPool → List ℕ → Run (KString × StringPool)
new_string spool chars =
    let len = length chars % 2 ^ 16 in
    if ltb (len + 1) (2 ^ 15)
    then ok
        (record { addr = spool.brk; byte = take len chars }, record spool { brk = spool.brk + 1 })
    else fault out_of_bounds

unfoldable pub string_pool_lookup : StringPool → List ℕ → Run (KString × StringPool)
string_pool_lookup spool chars = do
  let key = get_chars_hash chars
  head ← bucket_at spool.bucket key
  elim (find_string chars head) [
    | some s ↦ ok (s, spool)
    | none ↦ elim (find_string chars head) [
      | some s ↦ ok (s, spool)
      | none ↦ (do
        (s, spool) ← new_string spool chars
        ok (s, record spool { bucket = set spool.bucket key (s ∷ head) }))
    ]
  ]

-- The first match is unlinked through `pre`.
unfoldable pub unlink_string : List ℕ → List KString → List KString
unlink_string chars [] = []
unlink_string chars (s ∷ entry) = if is_match chars s then entry else s ∷ unlink_string chars entry

unfoldable pub string_pool_remove : StringPool → KString → Run StringPool
string_pool_remove spool kstring = do
  let chars = kstring.byte
  let key = get_chars_hash chars
  head ← bucket_at spool.bucket key
  ok (record spool { bucket = set spool.bucket key (unlink_string chars head) })
