-- ===== src/Loader/Parts.antt =====
-- How the parts of a call of `load_class` (korp_src/class/class_loader.cpp) fit together.
use mini_jvm.Common.{
  ℕ, ◌≤◌, ◌<◌, ◌≡◌, refl, List, [], ◌∷◌, Bool, true, false, ◌==◌, if◌then◌else◌, Run, All, Ends,
  bind-Ends, ok-Ends, fault-Ends, if-Ends, Gives, ok-Gives, arith,
}
use mini_jvm.Loader.{
  Name, Class, Table, Loaded, found, refused, if_found, cut_at_semicolon, element_classname,
  array_element, copied_name,
}
use mini_jvm.Loader.Supers.{Grows, Closed}

cut_at_semicolon-Ends : (n : Name) → Ends (cut_at_semicolon n)
unfolding cut_at_semicolon
cut_at_semicolon-Ends [] = fault-Ends (λ h. cc)
cut_at_semicolon-Ends (c ∷ n) =
    if-Ends (c == b';') (ok-Ends [])
      (bind-Ends (cut_at_semicolon n) _ (cut_at_semicolon-Ends n) (λ r. ok-Ends _))

element_classname-Ends : (n : Name) → Ends (element_classname n)
unfolding element_classname
element_classname-Ends [] = fault-Ends (λ h. cc)
element_classname-Ends (a ∷ []) = fault-Ends (λ h. cc)
element_classname-Ends (a ∷ b ∷ n) =
    bind-Ends (cut_at_semicolon n) _ (cut_at_semicolon-Ends n) (λ r. ok-Ends _)

copied_name-Ends : (n : Name) → Ends (copied_name n)
unfolding copied_name
copied_name-Ends n = if-Ends _ (fault-Ends (λ h. cc)) (ok-Ends n)

pub array_element-Ends : (n : Name) → Ends (array_element n)
unfolding array_element
array_element-Ends [] = fault-Ends (λ h. cc)
array_element-Ends (open_bracket ∷ []) = fault-Ends (λ h. cc)
array_element-Ends (open_bracket ∷ type ∷ n) =
    if-Ends _
      (bind-Ends (copied_name n) _ (copied_name-Ends n) (λ copy.
        bind-Ends (element_classname copy) _ (element_classname-Ends copy) (λ e. ok-Ends _)))
      (if-Ends _
        (bind-Ends (copied_name (type ∷ n)) _ (copied_name-Ends (type ∷ n)) (λ copy. ok-Ends _))
        (if-Ends _ (fault-Ends (λ h. cc)) (ok-Ends _)))

-- What a part of a call leaves: the table has grown, is closed again, and holds with the class, if one
-- is found, what `P` says.
abbrev pub Post : Table → (Table → Class → Type 0) → Loaded → Type 0
Post t P (found t' c) = Grows t t' × Closed t' × P t' c
Post t P (refused t' e) = Grows t t' × Closed t'

Grows-trans : (t t' t'' : Table) → Grows t t' → Grows t' t'' → Grows t t''
Grows-trans t t' t'' g h n c e = h n c (g n c e)

module _ (t : Table) (P Q : Table → Class → Type 0) where
  -- What follows a part that may refuse.
  pub then-Post :
      (rest : Table → Class → Run Loaded)
      → ((t' : Table) (c : Class) → Grows t t' → Closed t' → P t' c → Gives (Post t Q) (rest t' c))
      → (r : Loaded) → Post t P r
      → Gives (Post t Q) (if_found r rest)
  then-Post rest h (found t' c) (g, k, p) = h t' c g k p
  then-Post rest h (refused t' e) (g, k) = ok-Gives (g, k)

  -- From a later table back to an earlier one.
  pub Post-from :
      (t' : Table)
      → Grows t t'
      → ((t'' : Table) (c : Class) → Grows t' t'' → P t'' c → Q t'' c)
      → (r : Loaded) → Post t' P r
      → Post t Q r
  Post-from t' g h (found t'' c) (g', k, p) = (Grows-trans t t' t'' g g', k, h t'' c g' p)
  Post-from t' g h (refused t'' e) (g', k) = (Grows-trans t t' t'' g g', k)

pub Gives-from :
    (t t' : Table) (P Q : Table → Class → Type 0) (m : Run Loaded)
    → Grows t t'
    → ((t'' : Table) (c : Class) → Grows t' t'' → P t'' c → Q t'' c)
    → Gives (Post t' P) m
    → Gives (Post t Q) m
Gives-from t t' P Q m g h k = record {
  ends = k.ends;
  all = λ r e. Post-from t P Q t' g h r (k.all r e);
}

pub if_both {ℓ κ} :
    {A : Type ℓ} (b : Bool) (P : A → Type κ) (x y : A) → P x → P y → P (if b then x else y)
if_both true P x y p q = p
if_both false P x y p q = q

pub if_same {ℓ κ} :
    {A : Type ℓ} {B : Type κ} (b : Bool) (f : A → B) (x y : A)
    → f y ≡ f x
    → f (if b then x else y) ≡ f x
if_same true f x y h = refl
if_same false f x y h = h

pub All-below :
    (rank : Name → ℕ) (names : List Name) {j k : ℕ}
    → j ≤ k
    → All (λ i. rank i < j) names
    → All (λ i. rank i < k) names
All-below rank [] le h = tt
All-below rank (n ∷ names) le (h, hs) = (omega arith, All-below rank names le hs)
