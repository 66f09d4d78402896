-- ===== src/StringPool/Tests.antt =====
-- Runs of the string pool (korp_src/class/string_pool.cpp) on two strings of one chain.
use mini_jvm.Common.{ℕ, ◌≡◌, ◌↔◌, refl, List, [], ◌∷◌, arith, ok}
use mini_jvm.Hash.{get_chars_hash}
use mini_jvm.StringPool.{
  KString, StringPool, new_string_pool, string_pool_lookup, string_pool_remove,
}
use mini_jvm.StringPool.Intern.{Interned, new-IsValid, lookup-Interned, lookup-addr_iff}
use mini_jvm.StringPool.Removal.{Removed, remove-Removed}

-- `ac` and `ba` have the same hash.
abbrev ac : List ℕ
ac = b'a' ∷ b'c' ∷ []

abbrev ba : List ℕ
ba = b'b' ∷ b'a' ∷ []

same_chain : get_chars_hash ac ≡ get_chars_hash ba
unfolding get_chars_hash
same_chain = refl

lookup-Interned_example :
    (s : KString) × (p' : StringPool) × (string_pool_lookup new_string_pool ac ≡ ok (s, p'))
    × Interned new_string_pool ac s p'
lookup-Interned_example = lookup-Interned new_string_pool new-IsValid ac (omega arith)

lookup-addr_iff_example :
    (s : KString) × (t : KString) × (p' : StringPool) × (p'' : StringPool) × (string_pool_lookup
        new_string_pool ac
      ≡ ok (s, p'))
    × (string_pool_lookup p' ba ≡ ok (t, p''))
    × ((s.addr ≡ t.addr) ↔ (ac ≡ ba))
    × (string_pool_lookup p'' ac ≡ ok (s, p''))
lookup-addr_iff_example =
    lookup-addr_iff new_string_pool ac ba new-IsValid (omega arith) (omega arith)

abbrev missing : KString
missing = record { addr = 7; byte = ba }

remove-Removed_example :
    (p' : StringPool) × (string_pool_remove new_string_pool missing ≡ ok p')
    × Removed new_string_pool ba p'
remove-Removed_example = remove-Removed new_string_pool new-IsValid missing
