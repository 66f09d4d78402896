-- ===== src/Loader.antt =====
-- The loading of a class with its superclass and its interfaces (`load_class`, `load_class_supers`,
-- `load_class_array_creation` and the start of `load_class_from_media` in
-- korp_src/class/class_loader.cpp; `class_verify` of korp_src/class/class_verify.cpp). A name is the
-- bytes of its pooled string, without the terminator, and a class refers to others by their names.
-- The class table is the list of its classes. What the class files on the class path hold, once
-- parsed, and what `class_prepare` answers are parameters, as is the name of java/lang/Object.
pub mod Supers
pub mod Parts
pub mod Superclass
pub mod Loads
pub mod Circular
mod Tests
use mini_jvm.Common.{
  ℕ, zero, suc, length, ltb, List, [], ◌∷◌, Bool, true, false, not, ◌&&◌, ◌||◌, ◌==◌, if◌then◌else◌,
  Option, none, some, Run, ok, fault, assert_failed, out_of_bounds, null_pointer, out_of_fuel,
  ◌>>=◌, has_bit,
}
use mini_jvm.Hash.{str_eq}
use mini_jvm.Prepare.{is_ref_type_type, typesize_type}

abbrev pub Name : Type 0
Name = List ℕ

-- What a class file gives.
pub record File : Type 0 where
  pub super_name : Option Name
  pub interface_info : List Name
  pub modifier : ℕ

-- A class object; `loading_supers` is the bit CS_LoadingSupers of its state, and `collocated` whether
-- `collocate_class_vtable` has made it, as a new object.
pub record Class : Type 0 where
  pub name : Name
  pub super_name : Option Name
  pub interface_info : List Name
  pub modifier : ℕ
  pub is_array : Bool
  pub loading_supers : Bool
  pub collocated : Bool

abbrev pub Table : Type 0
Table = List Class

-- `class_table_search` and `class_table_insert`, which keeps the first class of a name.
unfoldable pub search : Table → Name → Option Class
search [] n = none
search (c ∷ table) n = if str_eq c.name n then some c else search table n

abbrev pub unless_found : Table → Class → Option Class → Table
unless_found table c none = c ∷ table
unless_found table c (some old) = table

unfoldable pub insert : Table → Class → Table
unfolding search
insert table c = unless_found table c (search table c.name)

-- `korp_loader_exception`
pub data LoadError : Type 0 where
  no_class_def class_format class_circularity incompatible_class_change : LoadError

-- The class, or NULL with an exception; the table may have changed in either case.
pub data Loaded : Type 0 where
  found : Table → Class → Loaded
  refused : Table → LoadError → Loaded

-- `if( kclass == NULL ) return NULL;`
abbrev pub if_found : Loaded → (Table → Class → Run Loaded) → Run Loaded
if_found (found table c) rest = rest table c
if_found (refused table error) rest = ok (refused table error)

-- MOD_INTERFACE is the bit 9, MOD_FINAL the bit 4.
abbrev pub class_is_interface : Class → Bool
class_is_interface c = has_bit c.modifier 9

abbrev pub class_is_final : Class → Bool
class_is_final c = has_bit c.modifier 4

abbrev pub class_name_is_array : Name → Bool
class_name_is_array [] = false
class_name_is_array (c ∷ n) = c == b'['

-- The bytes up to the first semicolon; without one, `*c` writes through NULL.
unfoldable pub cut_at_semicolon : Name → Run Name
cut_at_semicolon [] = fault null_pointer
cut_at_semicolon (c ∷ n) = if c == b';' then ok [] else cut_at_semicolon n >>= λ rest. ok (c ∷ rest)

-- `strchr(elem_classname+2, ';')`: the search leaves out two characters.
unfoldable pub element_classname : Name → Run Name
unfolding cut_at_semicolon
element_classname (a ∷ b ∷ n) = cut_at_semicolon n >>= λ rest. ok (a ∷ b ∷ rest)
element_classname (a ∷ []) = fault out_of_bounds
element_classname [] = fault out_of_bounds

-- What an array class needs first: the class of the name, or a primitive class.
pub data Element : Type 0 where
  class_named : Name → Element
  primitive : Element

-- `strcpy` into the 256 bytes of the stack, with the terminator.
unfoldable pub copied_name : Name → Run Name
copied_name n = if ltb 255 (length n) then fault out_of_bounds else ok n

-- `type` is `classname[1]`.
unfoldable pub array_element : Name → Run Element
unfolding copied_name element_classname
array_element (open_bracket ∷ type ∷ n) =
    if type == b'L'
    then (do copy ← copied_name n; e ← element_classname copy; ok (class_named e))
    else if type == b'['
    then (copied_name (type ∷ n) >>= λ copy. ok (class_named copy))
    else if is_ref_type_type type || typesize_type type == 0
    then fault assert_failed
    else ok primitive
array_element (open_bracket ∷ []) = fault assert_failed
array_element [] = fault assert_failed

-- `load_class` as its parts call it.
abbrev pub Load : Type 0
Load = Table → Name → Run Loaded

module _ (object_name : Name) (media : Name → Option File)
    (class_prepare : Table → Class → Bool) where
  -- A new class, before its supers are loaded.
  abbrev pub new_class : Name → File → Class
  new_class n f = record {
    name = n;
    super_name = f.super_name;
    interface_info = f.interface_info;
    modifier = f.modifier;
    is_array = false;
    loading_supers = false;
    collocated = false;
  }

  abbrev pub array_class : Name → Class
  array_class n = record {
    name = n;
    super_name = some object_name;
    interface_info = [];
    modifier = 0;
    is_array = true;
    loading_supers = false;
    collocated = false;
  }

  -- An empty name is refused as circular.
  unfoldable pub load_class_from_media : Table → Name → Loaded
  load_class_from_media table [] = refused table class_circularity
  load_class_from_media table (c ∷ n) = elim (media (c ∷ n)) [
    | some f ↦ found table (new_class (c ∷ n) f)
    | none ↦ refused table no_class_def
  ]

  -- The array class is in the table before `load_class` goes on with it.
  abbrev pub new_array : Table → Name → Run Loaded
  new_array table n = ok (found (insert table (array_class n)) (array_class n))

  abbrev pub array_of : Load → Table → Name → Element → Run Loaded
  array_of load table n primitive = new_array table n
  array_of load table n (class_named element) =
      load table element >>= λ r. if_found r (λ table c. new_array table n)

  unfoldable pub load_class_array_creation : Load → Table → Name → Run Loaded
  unfolding array_element insert
  load_class_array_creation load table n = do e ← array_element n; array_of load table n e

  -- The loop over the interfaces.
  unfoldable pub load_interfaces : Load → Class → List Name → Table → Run Loaded
  load_interfaces load kclass [] table = ok (found table (record kclass { loading_supers = false }))
  load_interfaces load kclass (n ∷ names) table =
      load table n >>= λ r. if_found r (λ table c. load_interfaces load kclass names table)

  -- The bit is set on the new object, which is in no table yet. A class without superclass must be
  -- java/lang/Object, and a superclass neither an interface nor final.
  unfoldable pub load_super : Load → Class → Option Name → Table → Run Loaded
  unfolding load_interfaces
  load_super load kclass none table =
      if str_eq kclass.name object_name
      then load_interfaces load kclass kclass.interface_info table
      else ok (refused table class_format)
  load_super load kclass (some s) table = load table s >>= λ r. if_found r (λ table c.
      if class_is_interface c || class_is_final c
      then ok (refused table incompatible_class_change)
      else load_interfaces load kclass kclass.interface_info table)

  unfoldable pub load_class_supers : Load → Table → Class → Run Loaded
  unfolding load_super
  load_class_supers load table c =
      load_super load (record c { loading_supers = true }) c.super_name table

  -- `class_verify` accepts every class. Preparation, the new object with the vtable, and the insertion.
  unfoldable pub finish : Table → Class → Run Loaded
  unfolding insert
  finish table c =
      let kclass = if class_is_interface c then c else record c { collocated = true } in
      if class_prepare table c
      then ok (found (insert table kclass) kclass)
      else ok (refused table incompatible_class_change)

  unfoldable pub create_class : Load → Table → Name → Run Loaded
  unfolding load_class_array_creation load_class_from_media load_class_supers finish
  create_class load table n =
      if class_name_is_array n
      then (load_class_array_creation load table n >>= λ r. if_found r finish)
      else if_found (load_class_from_media table n)
          (λ table c. load_class_supers load table c >>= λ r. if_found r finish)

  unfoldable pub load_class : ℕ → Load
  unfolding create_class search
  load_class zero table n = fault out_of_fuel
  load_class (suc fuel) table n =
      let created = create_class (load_class fuel) table n in
      elim (search table n) [
        | some c ↦
            if c.loading_supers then ok (refused table class_circularity) else ok (found table c)
        | none ↦ created
      ]
