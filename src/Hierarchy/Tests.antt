-- ===== src/Hierarchy/Tests.antt =====
-- Runs over a small class graph: `Object` (0), an interface (1), another one that extends it (2),
-- a class (3) that implements that one, and an array class (4).
use mini_jvm.Common.{
  ℕ, zero, suc, ◌<◌, ◌≡◌, refl, [], ◌∷◌, true, false, none, some, arith, inl, inr, ok, fault,
  out_of_fuel,
}
use mini_jvm.Hierarchy.{Member, Class, Memory, is_subclass, java_instanceof_class, lookup_recursive}
use mini_jvm.Hierarchy.Subclass.{Extends, Decides, IsRanked, is_subclass-Decides}
use mini_jvm.Hierarchy.Instanceof.{
  Listed, Implements, IsGraph, instanceof-interface, instanceof-class,
}
use mini_jvm.Hierarchy.Lookup.{
  here, Inherits, own, above, nowhere, lookup_recursive-Inherits, lookup_recursive-diverges,
}

abbrev to_string : Member
to_string = record { name = 100; descriptor = 101; ident = 7 }

abbrev object_class : Class
object_class = record {
  super_class = none;
  interface_info = [];
  field_info = [];
  method_info = to_string ∷ [];
  modifier = 1;
  is_array = false;
  array_element_class = 0;
}

abbrev heap : Memory
heap zero = object_class
heap (suc zero) = record object_class { super_class = some 0; method_info = []; modifier = 0x201 }
heap (suc (suc zero)) = record object_class {
  super_class = some 0;
  interface_info = 1 ∷ [];
  method_info = [];
  modifier = 0x201;
}
heap (suc (suc (suc zero))) = record object_class {
  super_class = some 0;
  interface_info = 2 ∷ [];
  method_info = [];
}
heap (suc (suc (suc (suc n)))) = record object_class { super_class = some 0; is_array = true }

abbrev rank_of : ℕ → ℕ
rank_of c = c

heap-IsRanked : IsRanked heap rank_of
heap-IsRanked zero s h = cc
heap-IsRanked (suc zero) s h = let q : 0 ≡ s = cc in omega (arith, q)
heap-IsRanked (suc (suc zero)) s h = let q : 0 ≡ s = cc in omega (arith, q)
heap-IsRanked (suc (suc (suc zero))) s h = let q : 0 ≡ s = cc in omega (arith, q)
heap-IsRanked (suc (suc (suc (suc n)))) s h = let q : 0 ≡ s = cc in omega (arith, q)

heap_interfaces : (c i : ℕ) → Listed i (heap c).interface_info → rank_of i < rank_of c
heap_interfaces zero i h = absurd h
heap_interfaces (suc zero) i h = absurd h
heap_interfaces (suc (suc zero)) i (inl h) = omega (arith, h)
heap_interfaces (suc (suc zero)) i (inr h) = absurd h
heap_interfaces (suc (suc (suc zero))) i (inl h) = omega (arith, h)
heap_interfaces (suc (suc (suc zero))) i (inr h) = absurd h
heap_interfaces (suc (suc (suc (suc n)))) i h = absurd h

heap_no_array : (c i : ℕ) → Listed i (heap c).interface_info → (heap i).is_array ≡ false
heap_no_array zero i h = absurd h
heap_no_array (suc zero) i h = absurd h
heap_no_array (suc (suc zero)) i (inl h) = rw h refl
heap_no_array (suc (suc zero)) i (inr h) = absurd h
heap_no_array (suc (suc (suc zero))) i (inl h) = rw h refl
heap_no_array (suc (suc (suc zero))) i (inr h) = absurd h
heap_no_array (suc (suc (suc (suc n)))) i h = absurd h

heap-IsGraph : IsGraph heap rank_of
heap-IsGraph = record {
  supers = heap-IsRanked;
  interfaces = heap_interfaces;
  no_array = heap_no_array;
}

run_interface : java_instanceof_class heap (some 0) 5 3 1 ≡ ok true
unfolding java_instanceof_class
run_interface = refl

is_subclass-Decides_example : Decides (is_subclass heap 4 0 3) (Extends heap 0 3)
is_subclass-Decides_example = is_subclass-Decides heap rank_of heap-IsRanked 0 4 3 (omega arith)

instanceof-interface_example :
    Decides (java_instanceof_class heap (some 0) 5 3 1) (Implements heap 1 3)
instanceof-interface_example =
    instanceof-interface heap rank_of heap-IsGraph (some 0) 5 3 1 (omega arith) refl refl

instanceof-class_example : Decides (java_instanceof_class heap (some 0) 5 3 0) (Extends heap 0 3)
instanceof-class_example =
    instanceof-class heap rank_of heap-IsRanked (some 0) 5 3 0 (omega arith) refl refl

Inherits-to_string : Inherits heap (λ c. c.method_info) 100 101 (some to_string) 3
Inherits-to_string = above 0 tt refl (own to_string (here refl (refl, refl)) refl)

lookup_recursive-Inherits_example :
    lookup_recursive heap (λ c. c.method_info) 5 3 100 101 ≡ ok (some to_string)
lookup_recursive-Inherits_example =
    lookup_recursive-Inherits heap rank_of heap-IsRanked (λ c. c.method_info) 100 101 4 3
      (some to_string) (omega arith) Inherits-to_string (inl (λ e. absurd (cc)))

Inherits-none : Inherits heap (λ c. c.method_info) 100 102 none 3
Inherits-none = above 0 tt refl (nowhere ((λ c. absurd (omega (arith, c.1))), tt) refl refl)

lookup_recursive-diverges_example :
    lookup_recursive heap (λ c. c.method_info) 50 3 100 102 ≡ fault out_of_fuel
lookup_recursive-diverges_example =
    lookup_recursive-diverges heap rank_of heap-IsRanked (λ c. c.method_info) 100 102 50 3 2 []
      Inherits-none refl
