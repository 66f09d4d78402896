-- ===== src/Loader/Tests.antt =====
-- A class path with the classes O and AO, which extends O, and one with X and Y, which extend each
-- other.
use mini_jvm.Common.{
  ◌<◌, ◌≡◌, ◌≢◌, refl, sym, ap, ◌∙◌, subst, ◌⊎◌, inl, inr, [], ◌∷◌, Bool, true, false,
  if◌then◌else◌, length, Option, none, some, ok, fault, out_of_fuel, All, Ends, arith,
  some-injective, Bool-cases,
}
use mini_jvm.Hash.{str_eq, str_eq→eq}
use mini_jvm.Loader.{
  Name, File, Class, Table, search, Loaded, found, class_name_is_array, load_class,
}
use mini_jvm.Loader.Supers.{Present, Closed, array_element-shorter}
use mini_jvm.Loader.Parts.{Post}
use mini_jvm.Loader.Loads.{Ranked, load_class-Loads}
use mini_jvm.Loader.Circular.{Circle, load_class-diverges}

abbrev file_of : Option Name → File
file_of super = record { super_name = super; interface_info = []; modifier = 1 }

abbrev object : Name
object = b'O' ∷ []

abbrev derived : Name
derived = b'A' ∷ b'O' ∷ []

abbrev path : Name → Option File
path n =
    if str_eq n derived
    then some (file_of (some object))
    else if str_eq n object
    then some (file_of none)
    else none

path-super : (n s : Name) (f : File) → path n ≡ some f → f.super_name ≡ some s → length s < length n
path-super n s f h e = elim (Bool-cases (str_eq n derived)) [
  | inl d ↦
      let q : file_of (some object) ≡ f = some-injective (rw d at h) in
      let super : object ≡ s = some-injective (ap (λ g. g.super_name) q ∙ e) in
      omega (arith, ap length super, ap length (str_eq→eq n derived d))
  | inr d ↦ elim (Bool-cases (str_eq n object)) [
    | inl o ↦
        let q : file_of none ≡ f = some-injective (rw (d, o) at h) in
        let super : none ≡ some s = ap (λ g. g.super_name) q ∙ e in absurd (cc)
    | inr o ↦ let impossible : none ≡ some f = rw (d, o) at h in absurd (cc)
  ]
]

path-interfaces : (n : Name) (f : File) → path n ≡ some f → f.interface_info ≡ []
path-interfaces n f h = elim (Bool-cases (str_eq n derived)) [
  | inl d ↦
      let q : file_of (some object) ≡ f = some-injective (rw d at h) in
      ap (λ g. g.interface_info) (sym q)
  | inr d ↦ elim (Bool-cases (str_eq n object)) [
    | inl o ↦
        let q : file_of none ≡ f = some-injective (rw (d, o) at h) in
        ap (λ g. g.interface_info) (sym q)
    | inr o ↦ let impossible : none ≡ some f = rw (d, o) at h in absurd (cc)
  ]
]

abbrev accepts : Table → Class → Bool
accepts t c = true

path-Ranked : Ranked object path accepts length
path-Ranked = record {
  super = path-super;
  interfaces = λ n f h. subst (All (λ i. length i < length n)) (sym (path-interfaces n f h)) tt;
  element = array_element-shorter;
}

empty-Closed : Closed []
unfolding search
empty-Closed n c h = cc

-- Object comes first, and then the derived class.
load_class-derived :
    (c d : Class) × (load_class object path accepts 3 [] derived ≡ ok (found (c ∷ d ∷ []) c))
    × (c.name ≡ derived)
    × (d.name ≡ object)
unfolding load_class str_eq
load_class-derived = (_, _, refl, refl, refl)

load_class-Loads_example :
    Ends (load_class object path accepts 3 [] derived)
    × ((r : Loaded)
        → load_class object path accepts 3 [] derived ≡ ok r
        → Post [] (λ t' c. Present t' derived) r)
load_class-Loads_example =
    load_class-Loads object path accepts length 3 [] derived path-Ranked empty-Closed (omega arith)

abbrev x_name : Name
x_name = b'X' ∷ []

abbrev y_name : Name
y_name = b'Y' ∷ []

abbrev circle_path : Name → Option File
circle_path n =
    if str_eq n x_name
    then some (file_of (some y_name))
    else if str_eq n y_name
    then some (file_of (some x_name))
    else none

abbrev XOrY : Name → Type 0
XOrY n = (n ≡ x_name) ⊎ (n ≡ y_name)

circle-extends :
    (n : Name)
    → XOrY n
    → (f : File) × (s : Name) × (circle_path n ≡ some f) × (f.super_name ≡ some s) × XOrY s
unfolding str_eq
circle-extends n (inl e) = (file_of (some y_name), y_name, ap circle_path e, refl, inr refl)
circle-extends n (inr e) = (file_of (some x_name), x_name, ap circle_path e, refl, inl refl)

XOrY-no_array : (n : Name) → XOrY n → class_name_is_array n ≡ false
XOrY-no_array n (inl e) = ap class_name_is_array e
XOrY-no_array n (inr e) = ap class_name_is_array e

XOrY-no_empty : (n : Name) → XOrY n → n ≢ []
XOrY-no_empty n (inl e) h = omega (arith, ap length e, ap length h)
XOrY-no_empty n (inr e) h = omega (arith, ap length e, ap length h)

circle-Circle : Circle circle_path XOrY
circle-Circle = record {
  no_array = XOrY-no_array;
  no_empty = XOrY-no_empty;
  extends = circle-extends;
}

load_class-diverges_example :
    load_class object circle_path accepts 100 [] x_name ≡ fault out_of_fuel
unfolding search
load_class-diverges_example =
    load_class-diverges object circle_path accepts XOrY [] circle-Circle (λ n m. refl) 100 x_name
      (inl refl)
