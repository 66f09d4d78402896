-- ===== src/Prepare/Itable.antt =====
-- The interface tables of class preparation (`prepare_interface_table` of
-- korp_src/class/class_prepare.cpp), over the methods and the vtable of Prepare.Vtable.
use mini_jvm.Common.{
  ℕ, zero, suc, ◌+◌, ◌-◌, ◌/◌, ◌%◌, ◌^◌, ◌≡◌, refl, sym, ap, ◌∙◌, List, [], ◌∷◌, Bool, true, false,
  ◌==◌, ==_iff, if◌then◌else◌, get_elem?, Option, none, some, Run, ok, fault, assert_failed,
  out_of_bounds, ◌>>=◌, ◌>>◌, assert, >>=-eq-ok, ok-injective, some-injective, subst, inl, inr, All,
  arith, Bool-cases, Option-cases,
}
use mini_jvm.Prepare.Vtable.{Method, Store, method_equal_signature, vm_array_overhead}
use mini_jvm.Prepare.Vtable.Placement.{Signed, equal_signature-Signed}

-- The loop over the vtable: the first method with the signature.
unfoldable pub find_method : Store → Method → List ℕ → Option ℕ
find_method store kintf_method [] = none
find_method store kintf_method (a ∷ info) =
    if method_equal_signature (store a) kintf_method
    then some a
    else find_method store kintf_method info

-- What `kmethod` is if the loop finds none: the last one that it has looked at.
unfoldable pub last_method : List ℕ → Run ℕ
last_method [] = fault out_of_bounds
last_method (a ∷ []) = ok a
last_method (a ∷ b ∷ info) = last_method (b ∷ info)

-- `assert( (k<num_method) || class_is_abstract(kclass) )`
unfoldable pub implementation : Store → Bool → List ℕ → Method → Run ℕ
unfolding find_method last_method
implementation store is_abstract info kintf_method = elim (find_method store kintf_method info) [
  | some a ↦ ok a
  | none ↦ if is_abstract then last_method info else fault assert_failed
]

-- `(uint32)(kintf_method->offset - VM_ARRAY_OVERHEAD)/BYTES_OF_REF`
abbrev pub interface_slot : Method → ℕ
interface_slot m = (m.offset + (2 ^ 32 - vm_array_overhead)) % 2 ^ 32 / 4

-- The table of one interface, from its method `j` on; an initialiser leaves its entry NULL.
unfoldable pub intf_method_table : Store → Bool → List ℕ → ℕ → List ℕ → Run (List ℕ)
unfolding implementation
intf_method_table store is_abstract info j [] = ok []
intf_method_table store is_abstract info j (b ∷ methods) =
    let rest = intf_method_table store is_abstract info (j + 1) methods in
    let entry = (do
      a ← implementation store is_abstract info (store b)
      assert (j == interface_slot (store b))
      table ← rest
      ok (a ∷ table)) in
    if (store b).is_clinit then (rest >>= λ table. ok (0 ∷ table)) else entry

-- The tables of all interfaces, which are given by their methods.
unfoldable pub prepare_interface_table : Store → Bool → List ℕ → List (List ℕ) → Run (List (List ℕ))
unfolding intf_method_table
prepare_interface_table store is_abstract info [] = ok []
prepare_interface_table store is_abstract info (methods ∷ interfaces) = do
  table ← intf_method_table store is_abstract info 0 methods
  tables ← prepare_interface_table store is_abstract info interfaces
  ok (table ∷ tables)

find_method-some :
    (store : Store) (m : Method) (info : List ℕ) {a : ℕ}
    → find_method store m info ≡ some a
    → (k : ℕ) × (get_elem? info k ≡ some a) × Signed (store a) m
unfolding find_method
find_method-some store m [] h = cc
find_method-some store m (c ∷ info) {a} h = elim (Bool-cases (method_equal_signature (store c) m)) [
  | inl e ↦
      let q : c ≡ a = some-injective (rw e at h) in
      (0, ap some q, subst (λ x. Signed (store x) m) q (equal_signature-Signed (store c) m e))
  | inr e ↦ let (k, g, s) = find_method-some store m info (rw e at h) in (suc k, g, s)
]

implementation-ok :
    (store : Store) (info : List ℕ) (m : Method) {a : ℕ}
    → implementation store false info m ≡ ok a
    → (k : ℕ) × (get_elem? info k ≡ some a) × Signed (store a) m
unfolding implementation
implementation-ok store info m {a} h = elim (Option-cases (find_method store m info)) [
  | inl e ↦ let impossible : fault assert_failed ≡ ok a = rw (e, implementation) at h in absurd (cc)
  | inr (c, e) ↦
      let q : c ≡ a = ok-injective (rw (e, implementation) at h) in
      find_method-some store m info (e ∙ ap some q)
]

-- The entry of a method of an interface: a method of the vtable with its signature, in the slot that
-- the method's offset names.
abbrev pub Implements : Store → List ℕ → ℕ → List ℕ → List ℕ → Type 0
Implements store info start methods table =
    (i b : ℕ)
    → get_elem? methods i ≡ some b
    → (store b).is_clinit ≡ false
    → (a k : ℕ) × (get_elem? table i ≡ some a)
      × (get_elem? info k ≡ some a)
      × Signed (store a) (store b)
      × (interface_slot (store b) ≡ start + i)

Implements-clinit :
    (store : Store) (info : List ℕ) (j c x : ℕ) (methods table : List ℕ)
    → (store c).is_clinit ≡ true
    → Implements store info (j + 1) methods table
    → Implements store info j (c ∷ methods) (x ∷ table)
Implements-clinit store info j c x methods table e h zero b g n =
    let q : c ≡ b = some-injective g in
    let impossible : true ≡ false = sym e ∙ ap (λ d. (store d).is_clinit) q ∙ n in absurd (cc)
Implements-clinit store info j c x methods table e h (suc i) b g n =
    let (a, k, t, v, s, l) = h i b g n in (a, k, t, v, s, omega (arith, l))

Implements-entry :
    (store : Store) (info : List ℕ) (j c a k : ℕ) (methods table : List ℕ)
    → get_elem? info k ≡ some a
    → Signed (store a) (store c)
    → j ≡ interface_slot (store c)
    → Implements store info (j + 1) methods table
    → Implements store info j (c ∷ methods) (a ∷ table)
Implements-entry store info j c a k methods table v s l h zero b g n =
    let q : c ≡ b = some-injective g in
    (
      a,
      k,
      refl,
      v,
      subst (λ x. Signed (store a) (store x)) q s,
      ap (λ x. interface_slot (store x)) (sym q) ∙ sym l ∙ omega arith,
    )
Implements-entry store info j c a k methods table v s l h (suc i) b g n =
    let (a', k', t, v', s', l') = h i b g n in (a', k', t, v', s', omega (arith, l'))

asserted : (a b : ℕ) {u : Unit {0}} → assert (a == b) ≡ ok u → a ≡ b
asserted a b {u} h = elim (Bool-cases (a == b)) [
  | inl e ↦ (==_iff a b).0 e
  | inr e ↦ let impossible : fault assert_failed ≡ ok u = rw e at h in absurd (cc)
]

table_at :
    (store : Store) (info m t : List ℕ) (interfaces ts : List (List ℕ)) (n : ℕ) (methods : List ℕ)
    → get_elem? (m ∷ interfaces) n ≡ some methods
    → Implements store info 0 m t
    → ((i : ℕ)
        → get_elem? interfaces i ≡ some methods
        → (table : List ℕ) × (get_elem? ts i ≡ some table) × Implements store info 0 methods table)
    → (table : List ℕ) × (get_elem? (t ∷ ts) n ≡ some table) × Implements store info 0 methods table
table_at store info m t interfaces ts zero methods g here later =
    (t, refl, subst (λ x. Implements store info 0 x t) (some-injective g) here)
table_at store info m t interfaces ts (suc n) methods g here later = later n g

intf_method_table-Implements :
    (store : Store) (info : List ℕ) (j : ℕ) (methods : List ℕ) {table : List ℕ}
    → intf_method_table store false info j methods ≡ ok table
    → Implements store info j methods table
unfolding intf_method_table
intf_method_table-Implements store info j [] h = λ i b g n. absurd (cc)
intf_method_table-Implements store info j (c ∷ methods) {table} h =
    elim (Bool-cases (store c).is_clinit) [
      | inl e ↦
          let (rest, p, q) =
            >>=-eq-ok (intf_method_table store false info (j + 1) methods) (λ t. ok (0 ∷ t))
              (rw e at h) in
          subst (Implements store info j (c ∷ methods)) (ok-injective q) (
            Implements-clinit store info j c 0 methods rest e
              (intf_method_table-Implements store info (j + 1) methods p))
      | inr e ↦
          let (a, p, q) = >>=-eq-ok (implementation store false info (store c)) _ (rw e at h) in
          let (u, p', q') = >>=-eq-ok (assert (j == interface_slot (store c))) _ q in
          let (rest, p'', q'') =
            >>=-eq-ok (intf_method_table store false info (j + 1) methods) (λ t. ok (a ∷ t)) q' in
          let (k, v, s) = implementation-ok store info (store c) p in
          subst (Implements store info j (c ∷ methods)) (ok-injective q'') (
            Implements-entry store info j c a k methods rest v s
              (asserted j (interface_slot (store c)) p')
              (intf_method_table-Implements store info (j + 1) methods p''))
    ]

-- Each method of the interface but its initialiser has the offset of its place, and the vtable has a
-- method of its name and descriptor.
abbrev pub Implementable : Store → List ℕ → ℕ → List ℕ → Type 0
Implementable store info start methods =
    (i b : ℕ)
    → get_elem? methods i ≡ some b
    → (store b).is_clinit ≡ false
    → (interface_slot (store b) ≡ start + i)
      × (k : ℕ) × (a : ℕ) × (get_elem? info k ≡ some a)
      × Signed (store a) (store b)

equal_signature-true : (m m' : Method) → Signed m m' → method_equal_signature m m' ≡ true
equal_signature-true m m' h = ground arith

find_method-found :
    (store : Store) (m : Method) (info : List ℕ) (k a : ℕ)
    → get_elem? info k ≡ some a
    → Signed (store a) m
    → (c : ℕ) × (find_method store m info ≡ some c)
unfolding find_method
find_method-found store m [] k a g s = absurd (cc)
find_method-found store m (c ∷ info) zero a g s =
    let q : a ≡ c = some-injective (sym g) in
    let e : method_equal_signature (store c) m ≡ true =
      equal_signature-true (store c) m (subst (λ x. Signed (store x) m) q s) in
    (c, rw e refl)
find_method-found store m (c ∷ info) (suc k) a g s =
    elim (Bool-cases (method_equal_signature (store c) m)) [
      | inl e ↦ (c, rw e refl)
      | inr e ↦ let (d, p) = find_method-found store m info k a g s in (d, rw e p)
    ]

implementation-found :
    (store : Store) (info : List ℕ) (m : Method) (a : ℕ)
    → find_method store m info ≡ some a
    → implementation store false info m ≡ ok a
unfolding implementation
implementation-found store info m a h = rw (h, implementation) refl

later :
    (store : Store) (info : List ℕ) (j i b : ℕ)
    → interface_slot (store b) ≡ j + suc i
    → (k a : ℕ) → get_elem? info k ≡ some a
    → Signed (store a) (store b)
    → (interface_slot (store b) ≡ j + 1 + i)
      × (k : ℕ) × (a : ℕ) × (get_elem? info k ≡ some a)
      × Signed (store a) (store b)
later store info j i b l k a v s = (omega (arith, l), k, a, v, s)

intf_method_table-total :
    (store : Store) (info : List ℕ) (j : ℕ) (methods : List ℕ)
    → Implementable store info j methods
    → (table : List ℕ) × (intf_method_table store false info j methods ≡ ok table)
unfolding intf_method_table find_method-found equal_signature-true
intf_method_table-total store info j [] h = ([], refl)
intf_method_table-total store info j (c ∷ methods) h =
    let next = λ (i b : ℕ) (g : get_elem? methods i ≡ some b) (n : (store b).is_clinit ≡ false).
      (let (l, k, a, v, s) = h (suc i) b g n in later store info j i b l k a v s) in
    let (rest, p) = intf_method_table-total store info (j + 1) methods next in
    elim (Bool-cases (store c).is_clinit) [
      | inl e ↦ (0 ∷ rest, rw (e, p) refl)
      | inr e ↦
          let (l, k, a, v, s) = h 0 c refl e in
          let (d, q) = find_method-found store (store c) info k a v s in
          let slot : (j == interface_slot (store c)) ≡ true = (==_iff _ _).1 (omega (arith, l)) in
          (d ∷ rest, rw (e, implementation-found store info (store c) d q, slot, p) refl)
    ]

tables-Implement :
    (store : Store) (info : List ℕ) (interfaces tables : List (List ℕ))
    → prepare_interface_table store false info interfaces ≡ ok tables
    → (n : ℕ) (methods : List ℕ) → get_elem? interfaces n ≡ some methods
    → (table : List ℕ) × (get_elem? tables n ≡ some table) × Implements store info 0 methods table
unfolding prepare_interface_table
tables-Implement store info [] tables h n methods g = cc
tables-Implement store info (m ∷ interfaces) tables h n methods g =
    let (t, p, q) = >>=-eq-ok (intf_method_table store false info 0 m) _ h in
    let (ts, p', q') =
      >>=-eq-ok (prepare_interface_table store false info interfaces) (λ ts. ok (t ∷ ts)) q in
    subst
      (λ all.
        (table : List ℕ) × (get_elem? all n ≡ some table) × Implements store info 0 methods table)
      (ok-injective q')
      (table_at store info m t interfaces ts n methods g
        (intf_method_table-Implements store info 0 m p)
        (λ i l. tables-Implement store info interfaces ts p' i methods l))

tables-total :
    (store : Store) (info : List ℕ) (interfaces : List (List ℕ))
    → All (Implementable store info 0) interfaces
    → (tables : List (List ℕ)) × (prepare_interface_table store false info interfaces ≡ ok tables)
unfolding prepare_interface_table
tables-total store info [] h = ([], refl)
tables-total store info (m ∷ interfaces) (h, hs) =
    let (t, p) = intf_method_table-total store info 0 m h in
    let (ts, q) = tables-total store info interfaces hs in (t ∷ ts, rw (p, q) refl)

-- For a class that is not abstract and whose vtable has a method for each method of its interfaces,
-- the offsets of which name their places, `prepare_interface_table` does not fault. The table of each
-- interface then has at the place of each method, initialisers apart, a method of the vtable with its
-- name and its descriptor.
pub prepare_interface_table-Implements :
    (store : Store) (info : List ℕ) (interfaces : List (List ℕ))
    → All (Implementable store info 0) interfaces
    → (tables : List (List ℕ)) × (prepare_interface_table store false info interfaces ≡ ok tables)
      × ((n : ℕ) (methods : List ℕ)
          → get_elem? interfaces n ≡ some methods
          → (table : List ℕ) × (get_elem? tables n ≡ some table)
            × Implements store info 0 methods table)
prepare_interface_table-Implements store info interfaces h =
    let (tables, p) = tables-total store info interfaces h in
    (tables, p, tables-Implement store info interfaces tables p)
