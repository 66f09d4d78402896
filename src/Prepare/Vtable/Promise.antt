-- ===== src/Prepare/Vtable/Promise.antt =====
-- What `prepare_methods` (korp_src/class/class_prepare.cpp) relies on and what its tables promise.
use mini_jvm.Common.{
  ℕ, zero, suc, ◌+◌, ◌-◌, ◌*◌, ◌^◌, ◌≤◌, ◌<◌, ◌≡◌, ◌⊎◌, refl, List, [], ◌∷◌, ◌++◌, false, length,
  length-append, length-replicate, ltb, get_elem?, replicate, some, ok, Memᴰ, arith,
}
use mini_jvm.Prepare.Vtable.{
  Store, Class, method_is_static, method_is_default, vm_array_overhead, Vtable, super_tables,
  copied,
}
use mini_jvm.Prepare.Vtable.Placement.{Signed, Distinct, IsVtable}

-- The array copied from the superclass, and the empty slots behind it.
pub get_elem?-front :
    (xs ys : List ℕ) (j : ℕ) → j < length xs → get_elem? (xs ++ ys) j ≡ get_elem? xs j
get_elem?-front [] ys j h = absurd (omega arith)
get_elem?-front (x ∷ xs) ys zero h = refl
get_elem?-front (x ∷ xs) ys (suc j) h = get_elem?-front xs ys j (omega arith)

pub copied-ok :
    (xs : List ℕ) (n : ℕ)
    → length xs ≤ n
    → (copied xs n ≡ ok (xs ++ replicate (n - length xs) 0))
      × (length (xs ++ replicate (n - length xs) 0) ≡ n)
unfolding copied
copied-ok xs n le =
    let fits : ltb n (length xs) ≡ false = ground arith in
    (
      rw fits refl,
      omega (
        arith,
        length-append xs (replicate (n - length xs) 0),
        length-replicate {A = ℕ} (n - length xs) 0,
        le,
      ),
    )

-- What a superclass promises, and what a class adds: its methods are objects of their own, no two
-- instance methods have one signature, and the offsets of all slots fit in 16 bits.
pub record Wellformed (class_size : ℕ) (store : Store) (kclass : Class) : Type 0 where
  pub no_interface : kclass.is_interface ≡ false
  pub is_vtable : IsVtable (vm_array_overhead + class_size) store (super_tables kclass).vtable_info
  pub same_length : length (super_tables kclass).vtable ≡ length (super_tables kclass).vtable_info
  pub fits :
      vm_array_overhead
        + class_size
        + 4 * (length (super_tables kclass).vtable_info + length kclass.method_info)
      < 2 ^ 16
  pub own :
      (j a : ℕ)
      → get_elem? (super_tables kclass).vtable_info j ≡ some a
      → Memᴰ a kclass.method_info
      → ⊥
  pub distinct : Distinct kclass.method_info
  pub signatures :
      (b c : ℕ)
      → Memᴰ b kclass.method_info
      → Memᴰ c kclass.method_info
      → method_is_static (store b) ≡ false
      → method_is_static (store c) ≡ false
      → Signed (store b) (store c)
      → b ≡ c

-- The method `b` of the class overrides the method in the slot `j` of the superclass: it is the first one
-- with the signature of `b`, and the class may see it.
pub record Overrides (store : Store) (kclass : Class) (b j : ℕ) : Type 0 where
  pub overridden : ℕ
  pub at : get_elem? (super_tables kclass).vtable_info j ≡ some overridden
  pub signed : Signed (store b) (store overridden)
  pub first :
      (i c : ℕ)
      → i < j
      → get_elem? (super_tables kclass).vtable_info i ≡ some c
      → ¬ Signed (store b) (store c)
  pub visible :
      (kclass.package_name ≡ (super_tables kclass).package_name)
      ⊎ (method_is_default (store overridden) ≡ false)

-- The tables of the class serve dispatch: they are a vtable again, each slot of the superclass holds a
-- method with the signature that it had, and each instance method of the class stands, with the
-- entry of its code, in a slot. An overriding method stands in the slot that it overrides, and a slot
-- that no method overrides is the superclass's.
pub record Dispatches (class_size : ℕ) (store : Store) (kclass : Class) (store' : Store)
    (v : Vtable) : Type 0 where
  pub is_vtable : IsVtable (vm_array_overhead + class_size) store' v.info
  pub same_length : length v.code ≡ length v.info
  pub inherits :
      (j a : ℕ)
      → get_elem? (super_tables kclass).vtable_info j ≡ some a
      → (a' : ℕ) × (get_elem? v.info j ≡ some a') × Signed (store a) (store' a')
  pub holds :
      (b : ℕ)
      → Memᴰ b kclass.method_info
      → method_is_static (store b) ≡ false
      → (j : ℕ) × (get_elem? v.info j ≡ some b) × (get_elem? v.code j ≡ some (store' b).jitted_code)
  pub overrides :
      (b j : ℕ)
      → Memᴰ b kclass.method_info
      → method_is_static (store b) ≡ false
      → Overrides store kclass b j
      → (get_elem? v.info j ≡ some b) × (get_elem? v.code j ≡ some (store' b).jitted_code)
  pub retains :
      (j : ℕ)
      → j < length (super_tables kclass).vtable_info
      → ((b : ℕ)
          → Memᴰ b kclass.method_info
          → method_is_static (store b) ≡ false
          → ¬ Overrides store kclass b j)
      → (get_elem? v.info j ≡ get_elem? (super_tables kclass).vtable_info j)
        × (get_elem? v.code j ≡ get_elem? (super_tables kclass).vtable j)
