-- ===== src/Prepare/Vtable.antt =====
-- The tables for the dispatch of methods in class preparation (`prepare_methods` and its helpers in
-- korp_src/class/class_prepare.cpp). Methods are objects in a store, and a class and its vtable hold
-- their addresses, so that a class and its superclass share them.
pub mod Slots
pub mod Kept
pub mod Placement
pub mod Sharing
pub mod Overridden
pub mod Target
pub mod Writing
pub mod Promise
pub mod Dispatch
use mini_jvm.Common.{
  ℕ, zero, suc, ◌+◌, ◌-◌, ◌*◌, ◌/◌, ◌%◌, ◌^◌, List, [], ◌∷◌, ◌++◌, Bool, true, false, not, ◌&&◌,
  ◌||◌, ◌==◌, if◌then◌else◌, length, ltb, set, replicate, Option, none, some, Run, ok, fault,
  out_of_bounds, ◌>>=◌, has_bit,
}

-- `korp_method`, as far as preparation reads it: the name and the descriptor are addresses of pooled
-- strings, `jitted_code` is the entry of its code.
pub record Method : Type 0 where
  pub name : ℕ
  pub descriptor : ℕ
  pub modifier : ℕ
  pub jitted_code : ℕ
  pub offset : ℕ
  pub is_overridden : Bool
  pub is_clinit : Bool

abbrev pub Store : Type 0
Store = ℕ → Method

abbrev pub update : Store → ℕ → Method → Store
update store a m = λ b. if b == a then m else store b

-- What is read of the superclass: the tables have one entry for each slot.
pub record Super : Type 0 where
  pub package_name : ℕ
  pub vtable_info : List ℕ
  pub vtable : List ℕ

pub record Class : Type 0 where
  pub is_interface : Bool
  pub package_name : ℕ
  pub super_class : Option Super
  pub method_info : List ℕ

-- MOD_STATIC is 0x0008.
abbrev pub method_is_static : Method → Bool
method_is_static m = has_bit m.modifier 3

-- MOD_PUBLIC, MOD_PRIVATE and MOD_PROTECTED are the bits 0, 1 and 2.
abbrev pub method_is_default : Method → Bool
method_is_default m = not (has_bit m.modifier 0 || (has_bit m.modifier 2 || has_bit m.modifier 1))

abbrev pub method_equal_signature : Method → Method → Bool
method_equal_signature m1 m2 = m1.name == m2.name && m1.descriptor == m2.descriptor

-- The loop over the slots of the superclass: the method that is overridden.
unfoldable pub find_overridden : Store → Bool → Method → List ℕ → Option ℕ
find_overridden store same_package kmethod [] = none
find_overridden store same_package kmethod (a ∷ info) =
    if method_equal_signature kmethod (store a)
    then (if not same_package && method_is_default (store a) then none else some a)
    else find_overridden store same_package kmethod info

-- The method takes the offset of the one that it overrides, and marks that one.
abbrev pub override : Store → ℕ → ℕ → Store
override store b a =
    let moved = update store b (record (store b) { offset = (store a).offset }) in
    update moved a (record (moved a) { is_overridden = true })

-- The superclass's method that a method of the class overrides, if any.
unfoldable pub found_in : Store → ℕ → ℕ → Option Super → Option ℕ
unfolding find_overridden
found_in store package_name b none = none
found_in store package_name b (some super) =
    find_overridden store (package_name == super.package_name) (store b) super.vtable_info

unfoldable pub superclass_method : Store → Class → ℕ → Option ℕ
unfolding found_in
superclass_method store kclass b =
    if kclass.is_interface then none else found_in store kclass.package_name b kclass.super_class

-- `override_superclass_method`, with the store behind it if it returns true.
unfoldable pub override_superclass_method : Store → Class → ℕ → Option Store
unfolding superclass_method
override_superclass_method store kclass b = elim (superclass_method store kclass b) [
  | some a ↦ some (override store b a)
  | none ↦ none
]

-- What the loop of `prepare_methods` carries: `instance_vtable_offset` and `num_instance_method` are
-- `uint16`.
pub record Placing : Type 0 where
  pub store : Store
  pub offset : ℕ
  pub num : ℕ

abbrev pub fresh : ℕ → Placing → Placing
fresh b p = record {
  store = update p.store b (record (p.store b) { offset = p.offset });
  offset = (p.offset + 4) % 2 ^ 16;
  num = (p.num + 1) % 2 ^ 16;
}

unfoldable pub place_method : Class → ℕ → Placing → Placing
unfolding override_superclass_method
place_method kclass b p =
    if method_is_static (p.store b) then p else elim (override_superclass_method p.store kclass b) [
      | some store ↦ record p { store = store }
      | none ↦ fresh b p
    ]

unfoldable pub place_methods : Class → List ℕ → Placing → Placing
unfolding place_method
place_methods kclass [] p = p
place_methods kclass (b ∷ methods) p = place_methods kclass methods (place_method kclass b p)

-- VM_ARRAY_OVERHEAD: the header and the length.
abbrev pub vm_array_overhead : ℕ
vm_array_overhead = 8

-- `method_get_slot_index`; `class_size` is `sizeof(korp_class)`.
unfoldable pub method_get_slot_index : ℕ → Method → ℕ
method_get_slot_index class_size m =
    (m.offset + (2 ^ 32 - (vm_array_overhead + class_size))) % 2 ^ 32 / 4 % 2 ^ 16

-- The two arrays of a class. A slot that nobody has written is 0.
pub record Vtable : Type 0 where
  pub info : List ℕ
  pub code : List ℕ

-- A new array of `slotnum` entries that starts with the given ones.
unfoldable pub copied : List ℕ → ℕ → Run (List ℕ)
copied entries slotnum =
    if ltb slotnum (length entries)
    then fault out_of_bounds
    else ok (entries ++ replicate (slotnum - length entries) 0)

unfoldable pub write_methods : ℕ → Store → List ℕ → Vtable → Run Vtable
unfolding method_get_slot_index
write_methods class_size store [] v = ok v
write_methods class_size store (b ∷ methods) v =
    let j = method_get_slot_index class_size (store b) in
    let wrote =
      write_methods class_size store methods
        (record { info = set v.info j b; code = set v.code j (store b).jitted_code }) in
    let skipped = write_methods class_size store methods v in
    if method_is_static (store b)
    then skipped
    else if ltb j (length v.info) && ltb j (length v.code)
    then wrote
    else fault out_of_bounds

abbrev pub no_tables : Super
no_tables = record { package_name = 0; vtable_info = []; vtable = [] }

abbrev pub tables_of : Option Super → Super
tables_of none = no_tables
tables_of (some super) = super

abbrev pub super_tables : Class → Super
super_tables kclass = tables_of kclass.super_class

unfoldable pub prepare_instance_vtable : ℕ → Store → Class → ℕ → Run Vtable
unfolding copied write_methods
prepare_instance_vtable class_size store kclass slotnum = do
  let super = super_tables kclass
  info ← copied super.vtable_info slotnum
  code ← copied super.vtable slotnum
  write_methods class_size store kclass.method_info (record { info = info; code = code })

-- Where the loop of `prepare_methods` starts.
unfoldable pub first_placing : ℕ → Store → Class → Placing
first_placing class_size store kclass =
    let slots = length (super_tables kclass).vtable in
    if kclass.is_interface
    then record { store = store; offset = vm_array_overhead; num = 0 }
    else record {
      store = store;
      offset = (vm_array_overhead + class_size + slots * 4) % 2 ^ 16;
      num = slots % 2 ^ 16;
    }

-- The store and the tables; an interface keeps the tables that it had, which are none.
pub record Prepared : Type 0 where
  pub store : Store
  pub tables : Option Vtable

unfoldable pub prepare_methods : ℕ → Store → Class → Run Prepared
unfolding place_methods first_placing prepare_instance_vtable
prepare_methods class_size store kclass =
    let p = place_methods kclass kclass.method_info (first_placing class_size store kclass) in
    let tables = (do
      v ← prepare_instance_vtable class_size p.store kclass p.num
      ok (record { store = p.store; tables = some v })) in
    if kclass.is_interface then ok (record { store = p.store; tables = none }) else tables
