-- ===== src/Loader/Loads.antt =====
-- A call of `load_class` (korp_src/class/class_loader.cpp) on class files without a cycle.
use mini_jvm.Common.{
  ℕ, zero, suc, ◌≤◌, ◌<◌, ◌≡◌, refl, sym, ap, ◌∙◌, subst, inl, inr, [], ◌∷◌, Bool, true, false,
  if◌then◌else◌, Option, some, ok, ◌>>=◌, All, Ends, Gives, ok-Gives, bind-Gives, if-Gives, arith,
  Option-cases,
}
use mini_jvm.Loader.{
  Name, File, Class, Table, search, insert, Loaded, if_found, class_is_interface,
  class_name_is_array, Element, class_named, primitive, array_element, Load, new_class, array_class,
  new_array, array_of, load_class_from_media, load_class_array_creation, load_class_supers, finish,
  create_class, load_class,
}
use mini_jvm.Loader.Supers.{Present, Supported, Closed, insert-Grows, insert-Present, insert-Closed}
use mini_jvm.Loader.Parts.{
  array_element-Ends, Post, then-Post, Post-from, Gives-from, if_both, if_same, All-below,
}
use mini_jvm.Loader.Superclass.{LoadsBelow, WithSupers, load_class_supers-Post}

module _ (object_name : Name) (media : Name → Option File)
    (class_prepare : Table → Class → Bool) where
  -- A ranking of the names: each class file and each array comes after what it needs.
  pub record Ranked (rank : Name → ℕ) : Type 0 where
    pub super : (n s : Name) (f : File) → media n ≡ some f → f.super_name ≡ some s → rank s < rank n
    pub interfaces :
        (n : Name) (f : File) → media n ≡ some f → All (λ i. rank i < rank n) f.interface_info
    pub element : (n e : Name) → array_element n ≡ ok (class_named e) → rank e < rank n

  -- The end of `load_class`.
  finish-Post :
      (t : Table) (c : Class) (n : Name)
      → Supported t c
      → c.name ≡ n
      → Closed t
      → Gives (Post t (λ t' d. Present t' n)) (finish object_name media class_prepare t c)
  unfolding finish
  finish-Post t c n s e closed =
      let kclass = if class_is_interface c then c else record c { collocated = true } in
      let name : kclass.name ≡ n =
        if_same (class_is_interface c) (λ d. d.name) c (record c { collocated = true }) refl ∙ e in
      let s' : Supported t kclass =
        if_both (class_is_interface c) (Supported t) c (record c { collocated = true }) s
          (record { super = s.super; interfaces = s.interfaces }) in
      if-Gives (class_prepare t c)
        (ok-Gives (
          insert-Grows t kclass,
          insert-Closed t kclass closed s',
          subst (Present (insert t kclass)) name (insert-Present t kclass),
        ))
        (ok-Gives ((λ m d h. h), closed))

  -- A class whose supers are done, on its way to `finish`.
  SupportedClass : Name → Table → Class → Type 0
  SupportedClass n t c = Supported t c × (c.name ≡ n)

  finish_found :
      (t : Table) (n : Name) (r : Loaded)
      → Post t (SupportedClass n) r
      → Gives (Post t (λ t' d. Present t' n)) (if_found r (finish object_name media class_prepare))
  unfolding SupportedClass
  finish_found t n r h =
      then-Post t (SupportedClass n) (λ t' d. Present t' n) _
        (λ t' c g closed p.
          Gives-from t t' (λ u d. Present u n) (λ u d. Present u n) _ g (λ u d g' q. q)
            (finish-Post t' c n p.0 p.1 closed))
        r h

  new_array-Post :
      (t : Table) (n : Name)
      → Closed t
      → Gives (Post t (SupportedClass n)) (new_array object_name media class_prepare t n)
  unfolding SupportedClass
  new_array-Post t n closed =
      let c = array_class object_name media class_prepare n in
      let s : (u : Table) → Supported u c = λ u. (record {
        super = λ s a e. (let impossible : true ≡ false = a in absurd (cc));
        interfaces = λ a. (let impossible : true ≡ false = a in absurd (cc));
      }) in
      ok-Gives (insert-Grows t c, insert-Closed t c closed (s t), (s (insert t c), refl))

  array_of-Post :
      (load : Load) (rank : Name → ℕ) (k : ℕ) (t : Table) (n : Name) (e : Element)
      → Ranked rank
      → LoadsBelow object_name media class_prepare load rank k
      → rank n ≤ k
      → Closed t
      → array_element n ≡ ok e
      → Gives (Post t (SupportedClass n)) (array_of object_name media class_prepare load t n e)
  array_of-Post load rank k t n primitive ranked below le closed h = new_array-Post t n closed
  array_of-Post load rank k t n (class_named e) ranked below le closed h =
      bind-Gives (below t e closed (omega (arith, ranked.element n e h, le))) (
        then-Post t (λ t' c. Present t' e) (SupportedClass n) _
          (λ t' c g closed' present.
            Gives-from t t' (SupportedClass n) (SupportedClass n) _ g (λ u d g' p. p)
              (new_array-Post t' n closed')))

  create_array-Post :
      (load : Load) (rank : Name → ℕ) (k : ℕ) (t : Table) (n : Name)
      → Ranked rank
      → LoadsBelow object_name media class_prepare load rank k
      → rank n ≤ k
      → Closed t
      → Gives
          (Post t (SupportedClass n))
          (load_class_array_creation object_name media class_prepare load t n)
  unfolding load_class_array_creation
  create_array-Post load rank k t n ranked below le closed =
      let element : Gives (λ e. array_element n ≡ ok e) (array_element n) = record {
        ends = array_element-Ends n;
        all = λ e h. h;
      } in
      bind-Gives element (λ e h. array_of-Post load rank k t n e ranked below le closed h)

  -- What the class path gives for a name.
  FromFile : Name → Table → Class → Type 0
  FromFile n t c =
      (f : File) × (media n ≡ some f) × (c ≡ new_class object_name media class_prepare n f)

  from_media-Post :
      (t : Table) (n : Name)
      → Closed t
      → Post t (FromFile n) (load_class_from_media object_name media class_prepare t n)
  unfolding load_class_from_media FromFile
  from_media-Post t [] closed = ((λ n d h. h), closed)
  from_media-Post t (c ∷ n) closed = elim (Option-cases (media (c ∷ n))) [
    | inl e ↦ rw (e, Post) ((λ n d h. h), closed)
    | inr (f, e) ↦ rw (e, Post) ((λ n d h. h), closed, (f, e, refl))
  ]

  -- A class from a file, to its end.
  file_class-Post :
      (load : Load) (rank : Name → ℕ) (k : ℕ) (t : Table) (n : Name) (c : Class)
      → Ranked rank
      → LoadsBelow object_name media class_prepare load rank k
      → rank n ≤ k
      → Closed t
      → FromFile n t c
      → Gives (Post t (λ t' d. Present t' n)) (
          load_class_supers object_name media class_prepare load t c >>= λ r.
          if_found r (finish object_name media class_prepare))
  unfolding FromFile WithSupers SupportedClass
  file_class-Post load rank k t n c ranked below le closed (f, h, e) =
      let lt : (s : Name) → c.super_name ≡ some s → rank s < k =
        λ s q. omega (arith, ranked.super n s f h (sym (ap (λ d. d.super_name) e) ∙ q), le) in
      let lts : All (λ i. rank i < k) c.interface_info =
        subst (λ d. All (λ i. rank i < k) d.interface_info) (sym e)
          (All-below rank f.interface_info le (ranked.interfaces n f h)) in
      bind-Gives
        (load_class_supers-Post object_name media class_prepare load rank k t c below lt lts closed)
        (λ r post. finish_found t n r (
          Post-from t (WithSupers object_name media class_prepare c) (SupportedClass n) t
            (λ m d q. q) (λ u d g p. (p.0, p.1 ∙ ap (λ d. d.name) e)) r post))

  create_class-Post :
      (load : Load) (rank : Name → ℕ) (k : ℕ) (t : Table) (n : Name)
      → Ranked rank
      → LoadsBelow object_name media class_prepare load rank k
      → rank n ≤ k
      → Closed t
      → Gives
          (Post t (λ t' c. Present t' n))
          (create_class object_name media class_prepare load t n)
  unfolding create_class FromFile WithSupers SupportedClass
  create_class-Post load rank k t n ranked below le closed =
      if-Gives (class_name_is_array n)
        (bind-Gives (create_array-Post load rank k t n ranked below le closed) (finish_found t n))
        (then-Post t (FromFile n) (λ t' c. Present t' n) _
          (λ t' c g closed' from.
            Gives-from t t' (λ u d. Present u n) (λ u d. Present u n) _ g (λ u d g' q. q)
              (file_class-Post load rank k t' n c ranked below le closed' from))
          _ (from_media-Post t n closed))

  load_class-Post :
      (fuel : ℕ) (rank : Name → ℕ) (t : Table) (n : Name)
      → Ranked rank
      → Closed t
      → rank n < fuel
      → Gives (Post t (λ t' c. Present t' n)) (load_class object_name media class_prepare fuel t n)
  unfolding load_class
  load_class-Post zero rank t n ranked closed lt = absurd (omega arith)
  load_class-Post (suc fuel) rank t n ranked closed lt = elim (Option-cases (search t n)) [
    | inl e ↦
        rw (e, load_class)
          (create_class-Post (load_class object_name media class_prepare fuel) rank fuel t n ranked
            (λ t' m closed' below. load_class-Post fuel rank t' m ranked closed' below)
            (omega arith) closed)
    | inr (c, e) ↦
        rw (e, load_class)
          (if-Gives c.loading_supers (ok-Gives ((λ m d h. h), closed))
            (ok-Gives ((λ m d h. h), closed, (c, e))))
  ]

-- If the class files and the arrays of a class path have a ranking, in which each comes after
-- its superclass, its interfaces or its element, then `load_class` ends on a table in which the
-- superclass and the interfaces of each class stand, whatever `class_prepare` answers. Both a
-- class and a refusal leave a table that is so again and has the classes that it had; and with a class
-- the table has one of that name.
pub load_class-Loads :
    (object_name : Name) (media : Name → Option File) (class_prepare : Table → Class → Bool)
    (rank : Name → ℕ) (fuel : ℕ) (t : Table) (n : Name)
    → Ranked object_name media class_prepare rank
    → Closed t
    → rank n < fuel
    → Ends (load_class object_name media class_prepare fuel t n)
      × ((r : Loaded)
          → load_class object_name media class_prepare fuel t n ≡ ok r
          → Post t (λ t' c. Present t' n) r)
load_class-Loads object_name media class_prepare rank fuel t n ranked closed lt =
    let h = load_class-Post object_name media class_prepare fuel rank t n ranked closed lt in
    (h.ends, h.all)
