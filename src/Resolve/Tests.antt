-- ===== src/Resolve/Tests.antt =====
-- A concrete class with one method and one field, and the pool of a class that calls it.
use mini_jvm.Common.{ℕ, ◌≡◌, refl, List, [], ◌∷◌, false, Option, none, some, Run, ok}
use mini_jvm.Hierarchy.{Member, Memory, Class}
use mini_jvm.Resolve.{
  PoolSlot, class_name, class_at, field_ref, method_ref, member_at, name_and_type, done,
  class_resolve_field, class_resolve_method,
}
use mini_jvm.Resolve.Cached.{class_resolve_field-cached, class_resolve_method-cached}

abbrev size_field : Member
size_field = record { name = 50; descriptor = 51; ident = 8 }

abbrev run_method : Member
run_method = record { name = 60; descriptor = 61; ident = 7 }

abbrev list_class : Class
list_class = record {
  super_class = none;
  interface_info = [];
  field_info = size_field ∷ [];
  method_info = run_method ∷ [];
  modifier = 1;
  is_array = false;
  array_element_class = 0;
}

abbrev heap : Memory
heap c = list_class

-- Every name is that of the class at 3.
abbrev load : ℕ → Run (Option ℕ)
load name = ok (some 3)

-- Every member is private.
abbrev modifiers : ℕ → ℕ
modifiers m = 2

abbrev owners : ℕ → ℕ
owners m = 3

abbrev packages : ℕ → ℕ
packages c = 0

abbrev pool : List PoolSlot
pool =
    class_name 40
    ∷ name_and_type 60 61
    ∷ method_ref false 0 1
    ∷ name_and_type 50 51
    ∷ field_ref 0 3
    ∷ []

abbrev pool_with_method : List PoolSlot
pool_with_method =
    class_at 3 ∷ name_and_type 60 61 ∷ member_at 7 ∷ name_and_type 50 51 ∷ field_ref 0 3 ∷ []

abbrev pool_with_field : List PoolSlot
pool_with_field =
    class_at 3 ∷ name_and_type 60 61 ∷ method_ref false 0 1 ∷ name_and_type 50 51 ∷ member_at 8 ∷ []

-- A private method of the class that the reference names is given to another class, the one at 9.
run_private_method :
    class_resolve_method heap load modifiers owners packages 5 9 2 pool
    ≡ ok (done pool_with_method 7)
unfolding class_resolve_method mini_jvm.Hierarchy.lookup_recursive
run_private_method = refl

run_private_field :
    class_resolve_field heap load modifiers owners packages 5 9 4 pool ≡ ok (done pool_with_field 8)
unfolding class_resolve_field mini_jvm.Hierarchy.lookup_recursive
run_private_field = refl

class_resolve_method-cached_example :
    class_resolve_method heap load modifiers owners packages 0 4 2 pool_with_method
    ≡ ok (done pool_with_method 7)
class_resolve_method-cached_example =
    class_resolve_method-cached heap load modifiers owners packages 5 0 9 4 2 pool pool_with_method
      7 run_private_method

class_resolve_field-cached_example :
    class_resolve_field heap load modifiers owners packages 0 4 4 pool_with_field
    ≡ ok (done pool_with_field 8)
class_resolve_field-cached_example =
    class_resolve_field-cached heap load modifiers owners packages 5 0 9 4 4 pool pool_with_field 8
      run_private_field
