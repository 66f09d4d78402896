-- ===== src/Resolve.antt =====
-- The resolution of classes, fields and methods (korp_src/class/vm_interface.cpp) over the class graph
-- of Hierarchy. Classes, members and strings are addresses. `load_class`, which works on the table of
-- the loader, is a parameter here, as are the modifier and the owner of a member and the package of a
-- class.
pub mod Cached
mod Tests
use mini_jvm.Common.{
  ℕ, List, Bool, true, false, not, ◌&&◌, ◌||◌, ◌==◌, if◌then◌else◌, get_elem?, set, Option, none,
  some, Run, ok, fault, out_of_bounds, ◌>>=◌, deref, has_bit,
}
use mini_jvm.Hierarchy.{
  Member, Memory, Class, class_is_interface, is_subclass, class_lookup_field_recursive,
  class_lookup_method_recursive,
}

-- A slot of the constant pool that resolution meets: the name of a class or the class, a reference to
-- a member by the slots of its class and of its NameAndType or the member, and a NameAndType.
pub data PoolSlot : Type 0 where
  class_name : ℕ → PoolSlot
  class_at : ℕ → PoolSlot
  field_ref : ℕ → ℕ → PoolSlot
  method_ref : Bool → ℕ → ℕ → PoolSlot
  member_at : ℕ → PoolSlot
  name_and_type : ℕ → ℕ → PoolSlot

pub data ResolveError : Type 0 where
  load_failed illegal_access no_such_field no_such_method : ResolveError

-- The address, or NULL with an exception; the pool may have changed in either case.
pub data Resolved : Type 0 where
  done : List PoolSlot → ℕ → Resolved
  refused : List PoolSlot → ResolveError → Resolved

abbrev pub slot_at : List PoolSlot → ℕ → Run PoolSlot
slot_at cpool index = deref out_of_bounds (get_elem? cpool index)

-- `if( kresult == NULL ) return NULL;`
abbrev pub if_done : Resolved → (List PoolSlot → ℕ → Run Resolved) → Run Resolved
if_done (done cpool a) rest = rest cpool a
if_done (refused cpool e) rest = ok (refused cpool e)

-- The name and the descriptor in a slot.
unfoldable pub signature_at : List PoolSlot → ℕ → Run (ℕ × ℕ)
signature_at cpool index = do
  s ← slot_at cpool index
  elim s [
    | name_and_type n d ↦ ok (n, d)
    | class_name n ↦ fault out_of_bounds
    | class_at c ↦ fault out_of_bounds
    | field_ref a b ↦ fault out_of_bounds
    | method_ref i a b ↦ fault out_of_bounds
    | member_at a ↦ fault out_of_bounds
  ]

module _ (memory : Memory) (load_class : ℕ → Run (Option ℕ))
    (modifier_of owner_of package_of : ℕ → ℕ) where
  -- The loaded class is kept in the slot if the class may see it.
  unfoldable pub keep_class : ℕ → ℕ → List PoolSlot → Option ℕ → Resolved
  keep_class kclass index cpool none = refused cpool load_failed
  keep_class kclass index cpool (some c) =
      if has_bit (memory c).modifier 0 || (c == kclass || package_of c == package_of kclass)
      then done (set cpool index (class_at c)) c
      else refused cpool illegal_access

  unfoldable pub resolve_class_slot : ℕ → ℕ → List PoolSlot → PoolSlot → Run Resolved
  unfolding keep_class
  resolve_class_slot kclass index cpool (class_at c) = ok (done cpool c)
  resolve_class_slot kclass index cpool (class_name n) =
      load_class n >>= λ r. ok (keep_class kclass index cpool r)
  resolve_class_slot kclass index cpool (field_ref a b) = fault out_of_bounds
  resolve_class_slot kclass index cpool (method_ref i a b) = fault out_of_bounds
  resolve_class_slot kclass index cpool (member_at a) = fault out_of_bounds
  resolve_class_slot kclass index cpool (name_and_type n d) = fault out_of_bounds

  unfoldable pub class_resolve_class : ℕ → ℕ → List PoolSlot → Run Resolved
  unfolding resolve_class_slot
  class_resolve_class kclass index cpool =
      slot_at cpool index >>= resolve_class_slot kclass index cpool

  -- The check of the access right, against the class that the reference names. MOD_PUBLIC,
  -- MOD_PRIVATE and MOD_PROTECTED are the bits 0, 1 and 2.
  unfoldable pub may_access : ℕ → ℕ → ℕ → Run Bool
  may_access fuel m kresult =
      let same_package = package_of (owner_of m) == package_of kresult in
      let is_public = has_bit (modifier_of m) 0 in
      let is_protected = has_bit (modifier_of m) 2 in
      let is_default = not (is_public || (is_protected || has_bit (modifier_of m) 1)) in
      let below = (do
        b ← is_subclass memory fuel (owner_of m) kresult
        ok (b || (is_default && same_package))) in
      if is_public || owner_of m == kresult
      then ok true
      else if is_protected && same_package
      then ok true
      else if is_protected
      then below
      else ok (is_default && same_package)

  -- What is done with the member that the lookup has found.
  unfoldable pub keep_member :
      ℕ → ResolveError → ℕ → List PoolSlot → ℕ → Option Member → Run Resolved
  unfolding may_access
  keep_member fuel missing index cpool kresult none = ok (refused cpool missing)
  keep_member fuel missing index cpool kresult (some m) = do
    allowed ← may_access fuel m.ident kresult
    ok (
        if allowed
        then done (set cpool index (member_at m.ident)) m.ident
        else refused cpool illegal_access)

  unfoldable pub look_up_field : ℕ → ℕ → ℕ → List PoolSlot → ℕ → Run Resolved
  unfolding keep_member signature_at
  look_up_field fuel index nt cpool kresult = do
    (ks_name, ks_descriptor) ← signature_at cpool nt
    m ← class_lookup_field_recursive memory fuel kresult ks_name ks_descriptor
    keep_member fuel no_such_field index cpool kresult m

  unfoldable pub resolve_field_slot : ℕ → ℕ → ℕ → List PoolSlot → PoolSlot → Run Resolved
  unfolding class_resolve_class look_up_field
  resolve_field_slot fuel kclass index cpool (member_at a) = ok (done cpool a)
  resolve_field_slot fuel kclass index cpool (field_ref c nt) =
      class_resolve_class kclass c cpool >>= λ r. if_done r (look_up_field fuel index nt)
  resolve_field_slot fuel kclass index cpool (class_name n) = fault out_of_bounds
  resolve_field_slot fuel kclass index cpool (class_at c) = fault out_of_bounds
  resolve_field_slot fuel kclass index cpool (method_ref i a b) = fault out_of_bounds
  resolve_field_slot fuel kclass index cpool (name_and_type n d) = fault out_of_bounds

  unfoldable pub class_resolve_field : ℕ → ℕ → ℕ → List PoolSlot → Run Resolved
  unfolding resolve_field_slot
  class_resolve_field fuel kclass index cpool =
      slot_at cpool index >>= resolve_field_slot fuel kclass index cpool

  -- A Methodref names a class and an InterfaceMethodref an interface.
  unfoldable pub look_up_method : ℕ → ℕ → Bool → ℕ → List PoolSlot → ℕ → Run Resolved
  unfolding keep_member signature_at
  look_up_method fuel index of_interface nt cpool kresult =
      let is_interface = class_is_interface (memory kresult) in
      let found = (do
        (ks_name, ks_descriptor) ← signature_at cpool nt
        m ← class_lookup_method_recursive memory fuel kresult ks_name ks_descriptor
        keep_member fuel no_such_method index cpool kresult m) in
      if (not of_interface && is_interface) || (of_interface && not is_interface)
      then ok (refused cpool no_such_method)
      else found

  unfoldable pub resolve_method_slot : ℕ → ℕ → ℕ → List PoolSlot → PoolSlot → Run Resolved
  unfolding class_resolve_class look_up_method
  resolve_method_slot fuel kclass index cpool (member_at a) = ok (done cpool a)
  resolve_method_slot fuel kclass index cpool (method_ref i c nt) =
      class_resolve_class kclass c cpool >>= λ r. if_done r (look_up_method fuel index i nt)
  resolve_method_slot fuel kclass index cpool (class_name n) = fault out_of_bounds
  resolve_method_slot fuel kclass index cpool (class_at c) = fault out_of_bounds
  resolve_method_slot fuel kclass index cpool (field_ref a b) = fault out_of_bounds
  resolve_method_slot fuel kclass index cpool (name_and_type n d) = fault out_of_bounds

  unfoldable pub class_resolve_method : ℕ → ℕ → ℕ → List PoolSlot → Run Resolved
  unfolding resolve_method_slot
  class_resolve_method fuel kclass index cpool =
      slot_at cpool index >>= resolve_method_slot fuel kclass index cpool
