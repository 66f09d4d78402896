-- ===== src/Hierarchy.antt =====
-- The class graph and the walks over it: `is_subclass`, the member lookups
-- (korp_src/class/class_utils.cpp) and `java_instanceof_class` (korp_src/utils/utils.cpp).
-- Classes and strings are addresses; the memory gives the class object at an address. A walk that
-- the code does not bound takes fuel, and `out_of_fuel` means that it went on for that long.
pub mod Subclass
pub mod Instanceof
pub mod Lookup
mod Tests
use mini_jvm.Common.{
  ℕ, zero, suc, ◌/◌, ◌%◌, ◌^◌, List, [], ◌∷◌, Bool, true, false, ◌&&◌, ◌==◌, if◌then◌else◌, Option,
  none, some, Run, ok, fault, out_of_fuel, null_pointer, ◌>>=◌, has_bit,
}

-- A field or a method, by what a lookup reads of it.
pub record Member : Type 0 where
  pub name : ℕ
  pub descriptor : ℕ
  pub ident : ℕ

pub record Class : Type 0 where
  pub super_class : Option ℕ
  pub interface_info : List ℕ
  pub field_info : List Member
  pub method_info : List Member
  pub modifier : ℕ
  pub is_array : Bool
  pub array_element_class : ℕ

abbrev pub Memory : Type 0
Memory = ℕ → Class

-- `modifier & MOD_INTERFACE`, 0x0200
abbrev pub class_is_interface : Class → Bool
class_is_interface c = has_bit c.modifier 9

-- The inner loop of `java_instanceof_class`, over the interfaces of one class.
unfoldable pub any_interface : (ℕ → Run Bool) → List ℕ → Run Bool
any_interface test [] = ok false
any_interface test (i ∷ rest) = do
  found ← test i
  if found then ok true else any_interface test rest

-- `class_lookup_field_own` and `class_lookup_method_own`: the same loop over two arrays.
unfoldable pub find_member : ℕ → ℕ → List Member → Option Member
find_member ks_name ks_desc [] = none
find_member ks_name ks_desc (m ∷ rest) =
    if m.name == ks_name && m.descriptor == ks_desc
    then some m
    else find_member ks_name ks_desc rest

-- The loop over the interfaces: each round asks `again`, and never looks at the interface.
unfoldable pub lookup_interfaces : Run (Option Member) → List ℕ → Run (Option Member)
lookup_interfaces again [] = ok none
lookup_interfaces again (kintf ∷ rest) = do
  found ← again
  elim found [ some m ↦ ok (some m) | none ↦ lookup_interfaces again rest ]

module _ (memory : Memory) where
  unfoldable pub is_subclass : ℕ → ℕ → ℕ → Run Bool
  is_subclass zero super sub = fault out_of_fuel
  is_subclass (suc fuel) super sub =
      if super == sub
      then ok true
      else elim ((memory sub).super_class) [ some up ↦ is_subclass fuel super up | none ↦ ok false ]

  -- The outer loop of `java_instanceof_class`, up the superclasses.
  unfoldable pub interface_loop : ℕ → (ℕ → Run Bool) → ℕ → Run Bool
  unfolding any_interface
  interface_loop zero test kc_self = fault out_of_fuel
  interface_loop (suc fuel) test kc_self = do
    found ← any_interface test (memory kc_self).interface_info
    if found then ok true else elim ((memory kc_self).super_class) [
      | some up ↦ interface_loop fuel test up
      | none ↦ ok false
    ]

  -- `object` is `kenv->globals->java_lang_Object_class`. For an array the code assigns it to
  -- `kclass` where it means to compare, and returns true unless it is NULL.
  unfoldable pub java_instanceof_class : Option ℕ → ℕ → ℕ → ℕ → Run Bool
  unfolding is_subclass interface_loop
  java_instanceof_class object zero kc_self kclass = fault out_of_fuel
  java_instanceof_class object (suc fuel) kc_self kclass =
      let rest = interface_loop fuel (λ i. java_instanceof_class object fuel i kclass) kc_self in
      if kc_self == kclass
      then ok true
      else if (memory kc_self).is_array
      then (elim object [ some o ↦ ok true | none ↦ fault null_pointer ])
      else if class_is_interface (memory kclass)
      then rest
      else is_subclass fuel kclass kc_self

  -- The loop up the superclasses of both recursive lookups; `members` is the array that is read.
  unfoldable pub lookup_supers : (Class → List Member) → ℕ → ℕ → ℕ → ℕ → Run (Option Member)
  unfolding find_member
  lookup_supers members zero kc_temp ks_name ks_desc = fault out_of_fuel
  lookup_supers members (suc fuel) kc_temp ks_name ks_desc =
      elim (find_member ks_name ks_desc (members (memory kc_temp))) [
        | some m ↦ ok (some m)
        | none ↦ elim ((memory kc_temp).super_class) [
          | some up ↦ lookup_supers members fuel up ks_name ks_desc
          | none ↦ ok none
        ]
      ]

  -- `class_lookup_field_recursive` and `class_lookup_method_recursive`: the recursive call is on
  -- `kclass` itself.
  unfoldable pub lookup_recursive : (Class → List Member) → ℕ → ℕ → ℕ → ℕ → Run (Option Member)
  unfolding lookup_supers lookup_interfaces
  lookup_recursive members zero kclass ks_name ks_desc = fault out_of_fuel
  lookup_recursive members (suc fuel) kclass ks_name ks_desc =
      let again = lookup_recursive members fuel kclass ks_name ks_desc in
      (do
        found ← lookup_supers members fuel kclass ks_name ks_desc
        elim found [
          | some m ↦ ok (some m)
          | none ↦ lookup_interfaces again (memory kclass).interface_info
        ])

  abbrev pub class_lookup_field_recursive : ℕ → ℕ → ℕ → ℕ → Run (Option Member)
  class_lookup_field_recursive = lookup_recursive (λ c. c.field_info)

  abbrev pub class_lookup_method_recursive : ℕ → ℕ → ℕ → ℕ → Run (Option Member)
  class_lookup_method_recursive = lookup_recursive (λ c. c.method_info)
