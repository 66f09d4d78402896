-- ===== src/Prepare.antt =====
-- Class preparation (korp_src/class/class_prepare.cpp) and the type sizes that it uses
-- (korp_src/utils/utils.cpp).
pub mod Layout
pub mod Interfaces
pub mod Vtable
pub mod Itable
mod Tests
use mini_jvm.Common.{
  ℕ, ◌+◌, ◌%◌, ◌^◌, List, [], ◌∷◌, Bool, true, false, not, ◌&&◌, ◌||◌, ◌==◌, if◌then◌else◌, Option,
  none, some, Run, ok, fault, reported, ◌>>=◌, ◌>>◌, require, has_bit,
}

-- A field: its descriptor as the bytes of the string, its modifiers, and the offset that
-- preparation gives it.
pub record Field : Type 0 where
  pub descriptor : List ℕ
  pub modifier : ℕ
  pub offset : ℕ

-- `(korp_java_type)*string_to_chars(type)`: the first byte, the terminator if there is no other.
unfoldable pub java_type : List ℕ → ℕ
java_type [] = 0
java_type (c ∷ type) = c

unfoldable pub is_ref_type_type : ℕ → Bool
is_ref_type_type t = t == b'L' || (t == b'[' || t == b'$')

unfoldable pub is_ref_type_string : List ℕ → Bool
unfolding is_ref_type_type java_type
is_ref_type_string type = is_ref_type_type (java_type type)

unfoldable pub typesize_type : ℕ → ℕ
typesize_type t =
    if t == b'B' || t == b'Z'
    then 1
    else if t == b'C' || t == b'S'
    then 2
    else if t == b'F' || t == b'I'
    then 4
    else if t == b'D' || t == b'J'
    then 8
    else if t == b'L' || t == b'['
    then 4
    else 0

unfoldable pub typesize_string : List ℕ → ℕ
unfolding typesize_type java_type
typesize_string type = typesize_type (java_type type)

-- `modifier & MOD_STATIC`, 0x0008
abbrev pub field_is_static : Field → Bool
field_is_static f = has_bit f.modifier 3

abbrev pub field_is_ref : Field → Bool
field_is_ref f = is_ref_type_string f.descriptor

abbrev pub bytes_of_ref : ℕ
bytes_of_ref = 4

-- `VM_OBJ_OVERHEAD`
abbrev pub vm_obj_overhead : ℕ
vm_obj_overhead = 4

-- What a pass over the fields carries: the fields with their offsets, the running size (`uint16`)
-- and the count of references (`uint8`).
pub record Pass : Type 0 where
  pub fields : List Field
  pub size : ℕ
  pub refs : ℕ

-- The loop for reference fields, of the fields that `picks` selects.
unfoldable pub place_refs : (Field → Bool) → List Field → ℕ → ℕ → Pass
place_refs picks [] size refs = record { fields = []; size = size; refs = refs }
place_refs picks (f ∷ fs) size refs =
    let placed = picks f && field_is_ref f in
    let rest =
      place_refs picks fs (if placed then (size + bytes_of_ref) % 2 ^ 16 else size)
        (if placed then (refs + 1) % 2 ^ 8 else refs) in
    record rest { fields = (if placed then record f { offset = size } else f) ∷ rest.fields }

-- The loop for the other fields; `counts` is whether it counts them too, as the static one does. A
-- field of no known size ends the preparation.
unfoldable pub place_others : (Field → Bool) → Bool → List Field → ℕ → ℕ → Run Pass
place_others picks counts [] size refs = ok (record { fields = []; size = size; refs = refs })
place_others picks counts (f ∷ fs) size refs =
    let placed = picks f && not (field_is_ref f) in
    let field_size = typesize_string f.descriptor in
    (do
      require (not (placed && field_size == 0))
      rest ←
          place_others picks counts fs (if placed then (size + field_size) % 2 ^ 16 else size)
            (if placed && counts then (refs + 1) % 2 ^ 8 else refs)
      ok (record rest {
        fields = (if placed then record f { offset = size } else f) ∷ rest.fields;
      }))

-- What `prepare_fields` leaves in the class, with the two arguments that it gives
-- `prepare_static_data`. An interface keeps the instance size and the count that it had.
pub record Prepared : Type 0 where
  pub fields : List Field
  pub static_ref_num : ℕ
  pub static_data_size : ℕ
  pub instance_size : ℕ
  pub gc_info : ℕ

-- `base` is the instance size and the reference count of the superclass, if there is one.
unfoldable pub prepare_fields : Bool → ℕ → ℕ → Option (ℕ × ℕ) → List Field → Run Prepared
prepare_fields is_interface old_size old_info base field_info =
    let start : ℕ = elim base [ none ↦ vm_obj_overhead | some b ↦ b.0 ] in
    let start_refs : ℕ = elim base [ none ↦ 0 | some b ↦ b.1 ] in
    let is_instance : Field → Bool = λ f. not (field_is_static f) in
    let s₁ = place_refs field_is_static field_info 0 0 in
    (do
      s₂ ← place_others field_is_static true s₁.fields s₁.size s₁.refs
      let i₁ = place_refs is_instance s₂.fields start start_refs
      let instance_part = (do
        i₂ ← place_others is_instance false i₁.fields i₁.size i₁.refs
        ok (record {
          fields = i₂.fields;
          static_ref_num = s₂.refs;
          static_data_size = s₂.size;
          instance_size = i₂.size;
          gc_info = i₂.refs;
        }))
      if is_interface
          then ok (record {
            fields = s₂.fields;
            static_ref_num = s₂.refs;
            static_data_size = s₂.size;
            instance_size = old_size;
            gc_info = old_info;
          })
          else instance_part)
