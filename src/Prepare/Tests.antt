-- ===== src/Prepare/Tests.antt =====
-- Runs of `prepare_fields` and of the removal of duplicate interfaces
-- (korp_src/class/class_prepare.cpp).
use mini_jvm.Common.{
  ℕ, zero, suc, replicate, fault, out_of_bounds, ◌+◌, ◌^◌, ◌<◌, ◌≡◌, refl, List, [], ◌∷◌, false,
  arith, some, ok, true, get_elem?, subst, some-injective, Memᴰ, ◌==◌, if◌then◌else◌, ◌≤◌, ◌*◌,
}
use mini_jvm.Prepare.Vtable.{Method, Store, Super, Class, Vtable, prepare_methods}
use mini_jvm.Prepare.Itable.{
  Implementable, Implements, interface_slot, prepare_interface_table,
  prepare_interface_table-Implements,
}
use mini_jvm.Prepare.Vtable.Placement.{Signed}
use mini_jvm.Prepare.Vtable.Promise.{Wellformed, Dispatches}
use mini_jvm.Prepare.Vtable.Dispatch.{prepare_methods-Dispatches}
use mini_jvm.Prepare.{
  Field, Prepared, place_refs, place_others, prepare_fields, is_ref_type_string, is_ref_type_type,
  java_type, typesize_string, typesize_type,
}
use mini_jvm.Prepare.Interfaces.{
  eliminate_duplicates, remove_copies, last_other, Distinct, eliminate_duplicates-replicate,
}
use mini_jvm.Prepare.Layout.Measure.{bytes}
use mini_jvm.Prepare.Layout.{start_of, LaidOut, prepare_fields-LaidOut}

abbrev counter : Field
counter = record { descriptor = b'I' ∷ []; modifier = 0x8; offset = 0 }

abbrev flag : Field
flag = record { descriptor = b'B' ∷ []; modifier = 0; offset = 0 }

abbrev next_node : Field
next_node = record { descriptor = b'L' ∷ b'N' ∷ b';' ∷ []; modifier = 0; offset = 0 }

-- Behind a superclass of 12 bytes and one reference.
abbrev node_fields : List Field
node_fields = counter ∷ flag ∷ next_node ∷ []

abbrev node : Prepared
node = record {
  fields = counter ∷ record flag { offset = 16 } ∷ record next_node { offset = 12 } ∷ [];
  static_ref_num = 1;
  static_data_size = 4;
  instance_size = 17;
  gc_info = 2;
}

run_node : prepare_fields false 0 0 (some (12, 1)) node_fields ≡ ok node
unfolding prepare_fields place_refs place_others is_ref_type_string is_ref_type_type java_type
    typesize_string typesize_type
run_node = refl

node_fits : start_of (some (12, 1)) + bytes node_fields < 2 ^ 16
unfolding bytes is_ref_type_string is_ref_type_type java_type typesize_string typesize_type
node_fits = omega arith

prepare_fields-LaidOut_example : LaidOut node_fields (start_of (some (12, 1))) node
prepare_fields-LaidOut_example =
    prepare_fields-LaidOut 0 0 (some (12, 1)) node_fields node node_fits run_node

-- Two interfaces.
abbrev two : List ℕ
two = 5 ∷ 7 ∷ []

two-Distinct : Distinct two
two-Distinct zero zero x p q = refl
two-Distinct zero (suc zero) x p q =
    let e : 5 ≡ x = cc in let f : 7 ≡ x = cc in absurd (omega (arith, e, f))
two-Distinct (suc zero) zero x p q =
    let e : 7 ≡ x = cc in let f : 5 ≡ x = cc in absurd (omega (arith, e, f))
two-Distinct (suc zero) (suc zero) x p q = refl
two-Distinct (suc (suc i)) j x p q = absurd (cc)
two-Distinct zero (suc (suc j)) x p q = absurd (cc)
two-Distinct (suc zero) (suc (suc j)) x p q = absurd (cc)

eliminate_duplicates-replicate_example :
    eliminate_duplicates 3 (replicate 2 5) 0 2 ≡ fault out_of_bounds
eliminate_duplicates-replicate_example = eliminate_duplicates-replicate 0 5

-- The interface 7 is lost.
lost : eliminate_duplicates 4 (5 ∷ 7 ∷ 5 ∷ []) 0 3 ≡ ok (5 ∷ [])
unfolding eliminate_duplicates remove_copies last_other
lost = refl

-- A superclass with the methods 1 and 2, and a class with an overriding method 3, a static one 4 and
-- a new one 5.
abbrev method_at : ℕ → ℕ → ℕ → Method
method_at name modifier offset = record {
  name = name;
  descriptor = 70;
  modifier = modifier;
  jitted_code = 1000 + name;
  offset = offset;
  is_overridden = false;
  is_clinit = false;
}

abbrev methods : Store
methods i =
    if i == 1
    then method_at 11 1 108
    else if i == 2
    then method_at 12 1 112
    else if i == 3
    then method_at 12 1 0
    else if i == 4
    then method_at 13 9 0
    else if i == 6
    then method_at 12 1 8
    else if i == 7
    then method_at 14 1 12
    else method_at 14 1 0

abbrev above : Super
above = record { package_name = 7; vtable_info = 1 ∷ 2 ∷ []; vtable = 1011 ∷ 1012 ∷ [] }

abbrev below : Class
below = record {
  is_interface = false;
  package_name = 7;
  super_class = some above;
  method_info = 3 ∷ 4 ∷ 5 ∷ [];
}

below-vtable : (j a : ℕ) → get_elem? above.vtable_info j ≡ some a → (methods a).offset ≡ 108 + 4 * j
below-vtable zero a h = let q : 1 ≡ a = cc in subst (λ x. (methods x).offset ≡ 108) q refl
below-vtable (suc zero) a h = let q : 2 ≡ a = cc in subst (λ x. (methods x).offset ≡ 112) q refl
below-vtable (suc (suc j)) a h = cc

above-small : (j a : ℕ) → get_elem? above.vtable_info j ≡ some a → a < 3
above-small zero a h = let q : 1 ≡ a = cc in omega (arith, q)
above-small (suc zero) a h = let q : 2 ≡ a = cc in omega (arith, q)
above-small (suc (suc j)) a h = cc

below-large : (a : ℕ) → Memᴰ a below.method_info → 3 ≤ a
below-large a (Memᴰ.head e) = omega arith
below-large a (Memᴰ.tail (Memᴰ.head e)) = omega arith
below-large a (Memᴰ.tail (Memᴰ.tail (Memᴰ.head e))) = omega arith
below-large a (Memᴰ.tail (Memᴰ.tail (Memᴰ.tail m))) = elim m [ ]

below-name : (b : ℕ) → Memᴰ b below.method_info → (methods b).name ≡ 9 + b
below-name b (Memᴰ.head e) = rw e refl
below-name b (Memᴰ.tail (Memᴰ.head e)) = rw e refl
below-name b (Memᴰ.tail (Memᴰ.tail (Memᴰ.head e))) = rw e refl
below-name b (Memᴰ.tail (Memᴰ.tail (Memᴰ.tail m))) = elim m [ ]

three-apart : Memᴰ {A = ℕ} 3 (4 ∷ 5 ∷ []) → ⊥
three-apart (Memᴰ.head e) = omega arith
three-apart (Memᴰ.tail (Memᴰ.head e)) = omega arith
three-apart (Memᴰ.tail (Memᴰ.tail m)) = elim m [ ]

four-apart : Memᴰ {A = ℕ} 4 (5 ∷ []) → ⊥
four-apart (Memᴰ.head e) = omega arith
four-apart (Memᴰ.tail m) = elim m [ ]

below-Wellformed : Wellformed 100 methods below
below-Wellformed = record {
  no_interface = refl;
  is_vtable = below-vtable;
  same_length = refl;
  fits = omega arith;
  own = λ j a h m. omega (arith, above-small j a h, below-large a m);
  distinct = (three-apart, (four-apart, ((λ m. elim m [ ]), tt)));
  signatures = λ b c mb mc nb nc same. omega (arith, same.0, below-name b mb, below-name c mc);
}

-- The method 3 takes the slot of 2, and 5 a new one; 2 is marked as overridden.
prepare_methods-below :
    (v : Vtable) × (store : Store) × (prepare_methods 100 methods below
      ≡ ok (record { store = store; tables = some v }))
    × (v.info ≡ 1 ∷ 3 ∷ 5 ∷ [])
    × (v.code ≡ 1011 ∷ 1012 ∷ 1014 ∷ [])
    × ((store 2).is_overridden ≡ true)
unfolding prepare_methods
prepare_methods-below =
    (record { info = 1 ∷ 3 ∷ 5 ∷ []; code = 1011 ∷ 1012 ∷ 1014 ∷ [] }, _, refl, refl, refl, refl)

prepare_methods-Dispatches_example :
    (store' : Store) × (v : Vtable) × (prepare_methods 100 methods below
      ≡ ok (record { store = store'; tables = some v }))
    × Dispatches 100 methods below store' v
prepare_methods-Dispatches_example = prepare_methods-Dispatches 100 methods below below-Wellformed

-- The methods 6 and 7 of an interface, which 3 and 5 implement.
contract-Implementable : Implementable methods (1 ∷ 3 ∷ 5 ∷ []) 0 (6 ∷ 7 ∷ [])
contract-Implementable zero b h n =
    subst
      (λ x.
        (interface_slot (methods x) ≡ 0)
        × (k : ℕ) × (a : ℕ) × (get_elem? (1 ∷ 3 ∷ 5 ∷ []) k ≡ some a)
        × Signed (methods a) (methods x))
      (some-injective h) (refl, 1, 3, refl, (refl, refl))
contract-Implementable (suc zero) b h n =
    subst
      (λ x.
        (interface_slot (methods x) ≡ 1)
        × (k : ℕ) × (a : ℕ) × (get_elem? (1 ∷ 3 ∷ 5 ∷ []) k ≡ some a)
        × Signed (methods a) (methods x))
      (some-injective h) (refl, 2, 5, refl, (refl, refl))
contract-Implementable (suc (suc i)) b h n = absurd (cc)

prepare_interface_table-contract :
    prepare_interface_table methods false (1 ∷ 3 ∷ 5 ∷ []) ((6 ∷ 7 ∷ []) ∷ [])
    ≡ ok ((3 ∷ 5 ∷ []) ∷ [])
unfolding prepare_interface_table
prepare_interface_table-contract = refl

prepare_interface_table-Implements_example :
    (tables : List (List ℕ)) × (prepare_interface_table methods false
        (1 ∷ 3 ∷ 5 ∷ [])
        ((6 ∷ 7 ∷ []) ∷ [])
      ≡ ok tables)
    × ((n : ℕ) (ms : List ℕ)
        → get_elem? ((6 ∷ 7 ∷ []) ∷ []) n ≡ some ms
        → (table : List ℕ) × (get_elem? tables n ≡ some table)
          × Implements methods (1 ∷ 3 ∷ 5 ∷ []) 0 ms table)
prepare_interface_table-Implements_example =
    prepare_interface_table-Implements methods (1 ∷ 3 ∷ 5 ∷ []) ((6 ∷ 7 ∷ []) ∷ [])
      (contract-Implementable, tt)
