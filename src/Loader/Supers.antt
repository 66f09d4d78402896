-- ===== src/Loader/Supers.antt =====
-- What a call of `load_class` (korp_src/class/class_loader.cpp) leaves behind, and when it ends.
use mini_jvm.Common.{
  ltb, out_of_bounds, suc, ◌≤◌, ◌<◌, ◌≡◌, refl, sym, ap, ◌∙◌, subst, ◌⊎◌, inl, inr, List, [], ◌∷◌,
  false, ◌||◌, ◌==◌, none, some, ok, fault, assert_failed, All, length, >>=-eq-ok, ok-injective,
  some-injective, arith, Bool-cases, Option-cases,
}
use mini_jvm.Hash.{str_eq, str_eq→eq, str_eq_refl}
use mini_jvm.Prepare.{is_ref_type_type, typesize_type}
use mini_jvm.Loader.{
  cut_at_semicolon, copied_name, element_classname, class_named, primitive, array_element, Name,
  Class, Table, search, insert, Loaded, found, refused,
}

-- A class of that name is in the table.
abbrev pub Present : Table → Name → Type 0
Present t n = (c : Class) × (search t n ≡ some c)

abbrev pub Grows : Table → Table → Type 0
Grows t t' = (n : Name) (c : Class) → search t n ≡ some c → search t' n ≡ some c

-- The superclass and the interfaces of a class that is no array are in the table.
pub record Supported (t : Table) (c : Class) : Type 0 where
  pub super : (s : Name) → c.is_array ≡ false → c.super_name ≡ some s → Present t s
  pub interfaces : c.is_array ≡ false → All (Present t) c.interface_info

abbrev pub Closed : Table → Type 0
Closed t = (n : Name) (c : Class) → search t n ≡ some c → Supported t c

abbrev pub table_of : Loaded → Table
table_of (found t c) = t
table_of (refused t e) = t

pub Present-Grows : (t t' : Table) (n : Name) → Grows t t' → Present t n → Present t' n
Present-Grows t t' n g (c, h) = (c, g n c h)

pub All-Grows :
    (t t' : Table) (ns : List Name) → Grows t t' → All (Present t) ns → All (Present t') ns
All-Grows t t' [] g h = tt
All-Grows t t' (n ∷ ns) g (h, hs) = (Present-Grows t t' n g h, All-Grows t t' ns g hs)

pub Supported-Grows : {t t' : Table} {c : Class} → Grows t t' → Supported t c → Supported t' c
Supported-Grows {t} {t'} {c} g h = record {
  super = λ s a e. Present-Grows t t' s g (h.super s a e);
  interfaces = λ a. All-Grows t t' c.interface_info g (h.interfaces a);
}

pub insert-Grows : (t : Table) (c : Class) → Grows t (insert t c)
unfolding insert search
insert-Grows t c n d h = elim (Option-cases (search t c.name)) [
  | inr (old, e) ↦ rw e h
  | inl e ↦ elim (Bool-cases (str_eq c.name n)) [
    | inl q ↦ let same : none ≡ some d = sym e ∙ ap (search t) (str_eq→eq c.name n q) ∙ h in cc
    | inr q ↦ rw (e, q) h
  ]
]

pub insert-Present : (t : Table) (c : Class) → Present (insert t c) c.name
unfolding insert search
insert-Present t c = elim (Option-cases (search t c.name)) [
  | inr (old, e) ↦ (old, rw (e, e) refl)
  | inl e ↦ (c, rw (e, str_eq_refl c.name) refl)
]

-- What an insertion can have added.
insert-cases :
    (t : Table) (c : Class) (n : Name) {d : Class}
    → search (insert t c) n ≡ some d
    → (search t n ≡ some d) ⊎ (c ≡ d)
unfolding insert search
insert-cases t c n {d} h = elim (Option-cases (search t c.name)) [
  | inr (old, e) ↦ inl (rw e at h)
  | inl e ↦ elim (Bool-cases (str_eq c.name n)) [
    | inl q ↦ let same : some c ≡ some d = rw (e, q) at h in inr (some-injective same)
    | inr q ↦ inl (rw (e, q) at h)
  ]
]

pub insert-Closed : (t : Table) (c : Class) → Closed t → Supported t c → Closed (insert t c)
insert-Closed t c closed s n d h = elim (insert-cases t c n h) [
  | inl old ↦ Supported-Grows (insert-Grows t c) (closed n d old)
  | inr q ↦ subst (Supported (insert t c)) q (Supported-Grows (insert-Grows t c) s)
]

-- The element of an array has a shorter name.
cut-shorter : (n r : Name) → cut_at_semicolon n ≡ ok r → length r ≤ length n
unfolding cut_at_semicolon
cut-shorter [] r h = cc
cut-shorter (c ∷ n) r h = elim (Bool-cases (c == b';')) [
  | inl e ↦
      let q : [] ≡ r = ok-injective (rw e at h) in
      subst (λ x. length x ≤ suc (length n)) q (omega arith)
  | inr e ↦
      let (x, p, q) = >>=-eq-ok (cut_at_semicolon n) _ (rw e at h) in
      subst (λ y. length y ≤ suc (length n)) (ok-injective q) (omega (arith, cut-shorter n x p))
]

element_classname-shorter : (n r : Name) → element_classname n ≡ ok r → length r ≤ length n
unfolding element_classname
element_classname-shorter [] r h = cc
element_classname-shorter (a ∷ []) r h = cc
element_classname-shorter (a ∷ b ∷ n) r h =
    let (x, p, q) = >>=-eq-ok (cut_at_semicolon n) _ h in
    subst (λ y. length y ≤ suc (suc (length n))) (ok-injective q) (omega (arith, cut-shorter n x p))

copied_name-same : (n r : Name) → copied_name n ≡ ok r → n ≡ r
unfolding copied_name
copied_name-same n r h = elim (Bool-cases (ltb 255 (length n))) [
  | inl b ↦ let impossible : fault out_of_bounds ≡ ok r = rw b at h in cc
  | inr b ↦ ok-injective (rw b at h)
]

class_named-injective : {a b : Name} → ok (class_named a) ≡ ok (class_named b) → a ≡ b
class_named-injective h = let q : class_named _ ≡ class_named _ = ok-injective h in cc

pub array_element-shorter :
    (n e : Name) → array_element n ≡ ok (class_named e) → length e < length n
unfolding array_element
array_element-shorter [] e h = cc
array_element-shorter (open_bracket ∷ []) e h = cc
array_element-shorter (open_bracket ∷ type ∷ n) e h = elim (Bool-cases (type == b'L')) [
  | inl l ↦
      let (copy, p₀, h₁) = >>=-eq-ok (copied_name n) _ (rw l at h) in
      let (x, p, q) = >>=-eq-ok (element_classname copy) (λ x. ok (class_named x)) h₁ in
      subst (λ y. length y < suc (suc (length n))) (class_named-injective q)
        (omega (arith, element_classname-shorter copy x p, ap length (copied_name-same n copy p₀)))
  | inr l ↦ elim (Bool-cases (type == b'[')) [
    | inl b ↦
        let (copy, p, q) =
          >>=-eq-ok (copied_name (type ∷ n)) (λ x. ok (class_named x)) (rw (l, b) at h) in
        subst (λ y. length y < suc (suc (length n))) (class_named-injective q)
          (omega (arith, ap length (copied_name-same (type ∷ n) copy p)))
    | inr b ↦ elim (Bool-cases (is_ref_type_type type || typesize_type type == 0)) [
      | inl r ↦
          let impossible : fault assert_failed ≡ ok (class_named e) = rw (l, b, r) at h in
          absurd (cc)
      | inr r ↦
          let impossible : ok primitive ≡ ok (class_named e) = rw (l, b, r) at h in absurd (cc)
    ]
  ]
]
