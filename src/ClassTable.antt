-- ===== src/ClassTable.antt =====
-- The class table of a loader (korp_src/class/class_table.cpp). Strings and classes are addresses:
-- `string_to_chars` is what the memory holds at a string's address, `name` the field of that name
-- of a class object. A chain of `korp_entry` objects is a list, its head first.
pub mod Refine
mod Tests
use mini_jvm.Common.{
  ℕ, List, [], ◌∷◌, ◌==◌, if◌then◌else◌, replicate, set, Option, none, some, Run, ok, ◌>>=◌,
}
use mini_jvm.Hash.{hash_table_size, get_chars_hash, bucket_at}

abbrev pub Table : Type 0
Table = List (List ℕ)

unfoldable pub new_class_table : Table
new_class_table = replicate hash_table_size []

module _ (string_to_chars : ℕ → List ℕ) (name : ℕ → ℕ) where
  -- The loop over a chain: the first class whose name is the same string object.
  unfoldable pub find_class : ℕ → List ℕ → Option ℕ
  find_class kclassname [] = none
  find_class kclassname (c ∷ entry) =
      if kclassname == name c then some c else find_class kclassname entry

  unfoldable pub class_table_search : Table → ℕ → Run (Option ℕ)
  class_table_search ktable kclassname = do
    entry ← bucket_at ktable (get_chars_hash (string_to_chars kclassname))
    ok (find_class kclassname entry)

  unfoldable pub class_table_insert : Table → ℕ → Run Table
  class_table_insert ktable kclass = do
    let key = get_chars_hash (string_to_chars (name kclass))
    entry ← bucket_at ktable key
    elim (find_class (name kclass) entry) [
      | some c ↦ ok ktable
      | none ↦ ok (set ktable key (kclass ∷ entry))
    ]

  unfoldable pub unlink_class : ℕ → List ℕ → List ℕ
  unlink_class kclassname [] = []
  unlink_class kclassname (c ∷ entry) =
      if kclassname == name c then entry else c ∷ unlink_class kclassname entry

  unfoldable pub class_table_remove : Table → ℕ → Run Table
  class_table_remove ktable kclass = do
    let key = get_chars_hash (string_to_chars (name kclass))
    entry ← bucket_at ktable key
    ok (set ktable key (unlink_class (name kclass) entry))
