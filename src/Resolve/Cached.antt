-- ===== src/Resolve/Cached.antt =====
-- A reference that is resolved once (korp_src/class/vm_interface.cpp) stays so.
use mini_jvm.Common.{
  ℕ, Fault, ok-injective, ◌≡◌, ◌<◌, refl, ap, subst, List, Bool, true, false, if◌then◌else◌, length,
  get_elem?, get_elem?-lt, length-set, get_elem?-set_self, >>=-eq-ok, Option, none, some, Run, ok,
  fault, out_of_bounds, ◌>>=◌, deref, deref-ok, arith, has_bit, ◌||◌, ◌==◌,
}
use mini_jvm.Hierarchy.{Member, Memory, class_lookup_field_recursive, class_lookup_method_recursive}
use mini_jvm.Resolve.{
  PoolSlot, class_name, class_at, field_ref, method_ref, member_at, name_and_type, ResolveError,
  Resolved, done, refused, slot_at, if_done, signature_at, keep_class, resolve_class_slot,
  class_resolve_class, may_access, keep_member, look_up_field, resolve_field_slot,
  class_resolve_field, look_up_method, resolve_method_slot, class_resolve_method, no_such_field,
  no_such_method,
}

-- What holds of the pool and the address, if there is an address.
record Leaves (P : List PoolSlot → ℕ → Type 0) (r : Resolved) : Type 0 where
  pub left : (cpool : List PoolSlot) (a : ℕ) → r ≡ done cpool a → P cpool a

record RunLeaves (P : List PoolSlot → ℕ → Type 0) (m : Run Resolved) : Type 0 where
  pub run_left : (r : Resolved) → m ≡ ok r → Leaves P r

module _ {P : List PoolSlot → ℕ → Type 0} where
  done-Leaves : {cpool : List PoolSlot} {a : ℕ} → P cpool a → Leaves P (done cpool a)
  done-Leaves {cpool} {a} h = record {
    left = λ c b e.
        let p : cpool ≡ c = cc in let q : a ≡ b = cc in subst (P c) q (subst (λ x. P x a) p h);
  }

  refused-Leaves : {cpool : List PoolSlot} {why : ResolveError} → Leaves P (refused cpool why)
  refused-Leaves = record { left = λ c a e. absurd (cc) }

  if-Leaves :
      (b : Bool) {r r' : Resolved} → Leaves P r → Leaves P r' → Leaves P (if b then r else r')
  if-Leaves true h k = h
  if-Leaves false h k = k

  ok-RunLeaves : {r : Resolved} → Leaves P r → RunLeaves P (ok r)
  ok-RunLeaves h = record { run_left = λ r e. subst (Leaves P) (ok-injective e) h }

  fault-RunLeaves : {e : Fault} → RunLeaves P (fault e)
  fault-RunLeaves = record { run_left = λ r e. absurd (cc) }

  if-RunLeaves :
      (b : Bool) {m m' : Run Resolved}
      → RunLeaves P m
      → RunLeaves P m'
      → RunLeaves P (if b then m else m')
  if-RunLeaves true h k = h
  if-RunLeaves false h k = k

  bind-RunLeaves :
      {A : Type 0} (m : Run A) {f : A → Run Resolved}
      → ((a : A) → RunLeaves P (f a))
      → RunLeaves P (m >>= f)
  bind-RunLeaves (ok a) k = k a
  bind-RunLeaves (fault e) k = fault-RunLeaves

if_done-RunLeaves :
    {P Q : List PoolSlot → ℕ → Type 0} (r : Resolved) {f : List PoolSlot → ℕ → Run Resolved}
    → Leaves Q r
    → ((cpool : List PoolSlot) (a : ℕ) → Q cpool a → RunLeaves P (f cpool a))
    → RunLeaves P (if_done r f)
if_done-RunLeaves (done cpool a) h k = k cpool a (h.left cpool a refl)
if_done-RunLeaves (refused cpool e) h k = ok-RunLeaves refused-Leaves

bind_done-RunLeaves :
    {P Q : List PoolSlot → ℕ → Type 0} (m : Run Resolved) {f : List PoolSlot → ℕ → Run Resolved}
    → RunLeaves Q m
    → ((cpool : List PoolSlot) (a : ℕ) → Q cpool a → RunLeaves P (f cpool a))
    → RunLeaves P (m >>= λ r. if_done r f)
bind_done-RunLeaves (ok r) h k = if_done-RunLeaves r (h.run_left r refl) k
bind_done-RunLeaves (fault e) h k = fault-RunLeaves

-- The slot holds the member that is returned.
Holds : ℕ → List PoolSlot → ℕ → Type 0
Holds index cpool a = get_elem? cpool index ≡ some (member_at a)

Reaches : ℕ → List PoolSlot → ℕ → Type 0
Reaches index cpool a = index < length cpool

module _ (memory : Memory) (load_class : ℕ → Run (Option ℕ))
    (modifier_of owner_of package_of : ℕ → ℕ) where
  keep_class-Reaches :
      (i kclass index : ℕ) (cpool : List PoolSlot) (c : Option ℕ)
      → i < length cpool
      → Leaves
          (Reaches i)
          (keep_class memory load_class modifier_of owner_of package_of kclass index cpool c)
  unfolding keep_class Reaches
  keep_class-Reaches i kclass index cpool none h = refused-Leaves
  keep_class-Reaches i kclass index cpool (some c) h =
      if-Leaves
        (has_bit (memory c).modifier 0 || (c == kclass || package_of c == package_of kclass))
        (done-Leaves (omega (arith, length-set cpool index (class_at c)))) refused-Leaves

  resolve_class_slot-Reaches :
      (i kclass index : ℕ) (cpool : List PoolSlot) (s : PoolSlot)
      → i < length cpool
      → RunLeaves (Reaches i) (
          resolve_class_slot memory load_class modifier_of owner_of package_of kclass index cpool s)
  unfolding resolve_class_slot Reaches
  resolve_class_slot-Reaches i kclass index cpool (class_at c) h =
      let reaches : Reaches i cpool c = h in ok-RunLeaves (done-Leaves reaches)
  resolve_class_slot-Reaches i kclass index cpool (class_name n) h =
      bind-RunLeaves (load_class n)
        (λ r. ok-RunLeaves (keep_class-Reaches i kclass index cpool r h))
  resolve_class_slot-Reaches i kclass index cpool (field_ref a b) h = fault-RunLeaves
  resolve_class_slot-Reaches i kclass index cpool (method_ref m a b) h = fault-RunLeaves
  resolve_class_slot-Reaches i kclass index cpool (member_at a) h = fault-RunLeaves
  resolve_class_slot-Reaches i kclass index cpool (name_and_type n d) h = fault-RunLeaves

  class_resolve_class-Reaches :
      (i kclass index : ℕ) (cpool : List PoolSlot)
      → i < length cpool
      → RunLeaves
          (Reaches i)
          (class_resolve_class memory load_class modifier_of owner_of package_of kclass index cpool)
  unfolding class_resolve_class
  class_resolve_class-Reaches i kclass index cpool h =
      bind-RunLeaves (slot_at cpool index)
        (λ s. resolve_class_slot-Reaches i kclass index cpool s h)

  keep_member-Holds :
      (fuel : ℕ) (e : ResolveError) (index : ℕ) (cpool : List PoolSlot) (kresult : ℕ)
      (m : Option Member)
      → index < length cpool
      → RunLeaves (Holds index) (
          keep_member memory load_class modifier_of owner_of package_of fuel e index cpool kresult
            m)
  unfolding keep_member Holds
  keep_member-Holds fuel e index cpool kresult none h = ok-RunLeaves refused-Leaves
  keep_member-Holds fuel e index cpool kresult (some m) h =
      bind-RunLeaves
        (may_access memory load_class modifier_of owner_of package_of fuel m.ident kresult)
        (λ b. ok-RunLeaves (
          if-Leaves b (done-Leaves (get_elem?-set_self cpool index (member_at m.ident) h))
            refused-Leaves))

  look_up_field-Holds :
      (fuel index nt : ℕ) (cpool : List PoolSlot) (kresult : ℕ)
      → index < length cpool
      → RunLeaves (Holds index) (
          look_up_field memory load_class modifier_of owner_of package_of fuel index nt cpool
            kresult)
  unfolding look_up_field
  look_up_field-Holds fuel index nt cpool kresult h = bind-RunLeaves (signature_at cpool nt) (λ s.
      bind-RunLeaves (class_lookup_field_recursive memory fuel kresult s.0 s.1)
        (λ m. keep_member-Holds fuel no_such_field index cpool kresult m h))

  look_up_method-Holds :
      (fuel index : ℕ) (of_interface : Bool) (nt : ℕ) (cpool : List PoolSlot) (kresult : ℕ)
      → index < length cpool
      → RunLeaves (Holds index) (
          look_up_method memory load_class modifier_of owner_of package_of fuel index of_interface
            nt cpool kresult)
  unfolding look_up_method
  look_up_method-Holds fuel index of_interface nt cpool kresult h =
      if-RunLeaves _ (ok-RunLeaves refused-Leaves) (
        bind-RunLeaves (signature_at cpool nt) (λ s.
          bind-RunLeaves (class_lookup_method_recursive memory fuel kresult s.0 s.1)
            (λ m. keep_member-Holds fuel no_such_method index cpool kresult m h)))

  resolve_field_slot-Holds :
      (fuel kclass index : ℕ) (cpool : List PoolSlot) (s : PoolSlot)
      → get_elem? cpool index ≡ some s
      → RunLeaves (Holds index) (
          resolve_field_slot memory load_class modifier_of owner_of package_of fuel kclass index
            cpool s)
  unfolding resolve_field_slot Holds Reaches
  resolve_field_slot-Holds fuel kclass index cpool (member_at a) e =
      let holds : Holds index cpool a = e in ok-RunLeaves (done-Leaves holds)
  resolve_field_slot-Holds fuel kclass index cpool (field_ref c nt) e =
      bind_done-RunLeaves
        (class_resolve_class memory load_class modifier_of owner_of package_of kclass c cpool)
        (class_resolve_class-Reaches index kclass c cpool (get_elem?-lt cpool index e))
        (λ p k r. look_up_field-Holds fuel index nt p k r)
  resolve_field_slot-Holds fuel kclass index cpool (class_name n) e = fault-RunLeaves
  resolve_field_slot-Holds fuel kclass index cpool (class_at c) e = fault-RunLeaves
  resolve_field_slot-Holds fuel kclass index cpool (method_ref i a b) e = fault-RunLeaves
  resolve_field_slot-Holds fuel kclass index cpool (name_and_type n d) e = fault-RunLeaves

  resolve_method_slot-Holds :
      (fuel kclass index : ℕ) (cpool : List PoolSlot) (s : PoolSlot)
      → get_elem? cpool index ≡ some s
      → RunLeaves (Holds index) (
          resolve_method_slot memory load_class modifier_of owner_of package_of fuel kclass index
            cpool s)
  unfolding resolve_method_slot Holds Reaches
  resolve_method_slot-Holds fuel kclass index cpool (member_at a) e =
      let holds : Holds index cpool a = e in ok-RunLeaves (done-Leaves holds)
  resolve_method_slot-Holds fuel kclass index cpool (method_ref i c nt) e =
      bind_done-RunLeaves
        (class_resolve_class memory load_class modifier_of owner_of package_of kclass c cpool)
        (class_resolve_class-Reaches index kclass c cpool (get_elem?-lt cpool index e))
        (λ p k r. look_up_method-Holds fuel index i nt p k r)
  resolve_method_slot-Holds fuel kclass index cpool (class_name n) e = fault-RunLeaves
  resolve_method_slot-Holds fuel kclass index cpool (class_at c) e = fault-RunLeaves
  resolve_method_slot-Holds fuel kclass index cpool (field_ref a b) e = fault-RunLeaves
  resolve_method_slot-Holds fuel kclass index cpool (name_and_type n d) e = fault-RunLeaves

  -- If class_resolve_field returns a field, then on the pool that it leaves it returns that field
  -- again, whichever class asks, and leaves the pool as it is.
  pub class_resolve_field-cached :
      (fuel fuel' kclass kclass' index : ℕ) (cpool cpool' : List PoolSlot) (a : ℕ)
      → class_resolve_field memory load_class modifier_of owner_of package_of fuel kclass index
          cpool
        ≡ ok (done cpool' a)
      → class_resolve_field memory load_class modifier_of owner_of package_of fuel' kclass' index
          cpool'
        ≡ ok (done cpool' a)
  unfolding class_resolve_field resolve_field_slot Holds
  class_resolve_field-cached fuel fuel' kclass kclass' index cpool cpool' a e =
      let (s, p, q) =
        >>=-eq-ok (slot_at cpool index)
          (resolve_field_slot memory load_class modifier_of owner_of package_of fuel kclass index
            cpool)
          e in
      let found =
        (resolve_field_slot-Holds fuel kclass index cpool s (deref-ok out_of_bounds _ p)).run_left _
          q in
      let held : get_elem? cpool' index ≡ some (member_at a) = found.left cpool' a refl in
      ap
        (λ o.
          deref out_of_bounds o
          >>= resolve_field_slot memory load_class modifier_of owner_of package_of fuel' kclass'
              index cpool')
        held

  -- If class_resolve_method returns a method, then on the pool that it leaves it returns that method
  -- again, whichever class asks, and leaves the pool as it is.
  pub class_resolve_method-cached :
      (fuel fuel' kclass kclass' index : ℕ) (cpool cpool' : List PoolSlot) (a : ℕ)
      → class_resolve_method memory load_class modifier_of owner_of package_of fuel kclass index
          cpool
        ≡ ok (done cpool' a)
      → class_resolve_method memory load_class modifier_of owner_of package_of fuel' kclass' index
          cpool'
        ≡ ok (done cpool' a)
  unfolding class_resolve_method resolve_method_slot Holds
  class_resolve_method-cached fuel fuel' kclass kclass' index cpool cpool' a e =
      let (s, p, q) =
        >>=-eq-ok (slot_at cpool index)
          (resolve_method_slot memory load_class modifier_of owner_of package_of fuel kclass index
            cpool)
          e in
      let found =
        (resolve_method_slot-Holds fuel kclass index cpool s (deref-ok out_of_bounds _ p)).run_left
          _ q in
      let held : get_elem? cpool' index ≡ some (member_at a) = found.left cpool' a refl in
      ap
        (λ o.
          deref out_of_bounds o
          >>= resolve_method_slot memory load_class modifier_of owner_of package_of fuel' kclass'
              index cpool')
        held
