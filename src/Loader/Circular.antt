-- ===== src/Loader/Circular.antt =====
-- A call of `load_class` (korp_src/class/class_loader.cpp) on class files with a cycle.
use mini_jvm.Common.{
  ℕ, zero, suc, ◌≡◌, ◌≢◌, refl, [], ◌∷◌, Bool, false, Option, none, some, fault, out_of_fuel,
}
use mini_jvm.Loader.{
  Name, File, Class, Table, search, found, class_name_is_array, Load, new_class,
  load_class_from_media, load_super, load_class_supers, create_class, load_class,
}

-- A set of names of class files, none of them an array or empty, whose superclasses are in the set.
pub record Circle (media : Name → Option File) (member : Name → Type 0) : Type 0 where
  pub no_array : (n : Name) → member n → class_name_is_array n ≡ false
  pub no_empty : (n : Name) → member n → n ≢ []
  pub extends :
      (n : Name)
      → member n
      → (f : File) × (s : Name) × (media n ≡ some f) × (f.super_name ≡ some s) × member s

module _ (object_name : Name) (media : Name → Option File)
    (class_prepare : Table → Class → Bool) where
  supers-fault :
      (load : Load) (t : Table) (c : Class) (s : Name)
      → c.super_name ≡ some s
      → load t s ≡ fault out_of_fuel
      → load_class_supers object_name media class_prepare load t c ≡ fault out_of_fuel
  unfolding load_class_supers load_super
  supers-fault load t c s e h = rw (e, h) refl

  from_media-found :
      (t : Table) (n : Name) (f : File)
      → n ≢ []
      → media n ≡ some f
      → load_class_from_media object_name media class_prepare t n
        ≡ found t (new_class object_name media class_prepare n f)
  unfolding load_class_from_media
  from_media-found t [] f ne m = absurd (ne refl)
  from_media-found t (c ∷ n) f ne m = rw (m, load_class_from_media) refl

  create_class-fault :
      (load : Load) (t : Table) (n s : Name) (f : File)
      → class_name_is_array n ≡ false
      → n ≢ []
      → media n ≡ some f
      → f.super_name ≡ some s
      → load t s ≡ fault out_of_fuel
      → create_class object_name media class_prepare load t n ≡ fault out_of_fuel
  unfolding create_class
  create_class-fault load t n s f a ne m e h =
      rw
        (
          a,
          from_media-found t n f ne m,
          supers-fault load t (new_class object_name media class_prepare n f) s e h,
        )
        refl

-- `load_class` puts a class into the table after its supers, so its test for circularity never sees a
-- class that is being loaded: on class files that extend each other in a circle, none of which the table
-- has, no fuel is enough.
pub load_class-diverges :
    (object_name : Name) (media : Name → Option File) (class_prepare : Table → Class → Bool)
    (member : Name → Type 0) (t : Table)
    → Circle media member
    → ((n : Name) → member n → search t n ≡ none)
    → (fuel : ℕ) (n : Name) → member n
    → load_class object_name media class_prepare fuel t n ≡ fault out_of_fuel
unfolding load_class
load_class-diverges object_name media class_prepare member t circle absent zero n m = refl
load_class-diverges object_name media class_prepare member t circle absent (suc fuel) n m =
    let (f, s, file, super, next) = circle.extends n m in
    let below =
      load_class-diverges object_name media class_prepare member t circle absent fuel s next in
    rw (absent n m, load_class)
      (create_class-fault object_name media class_prepare
        (load_class object_name media class_prepare fuel) t n s f (circle.no_array n m)
        (circle.no_empty n m) file super below)
