-- ===== src/Loader/Superclass.antt =====
-- The loading of the superclass and the interfaces (`load_class_supers` of
-- korp_src/class/class_loader.cpp).
use mini_jvm.Common.{
  ℕ, ◌<◌, ◌≡◌, refl, sym, ◌∙◌, subst, List, [], ◌∷◌, Bool, true, false, ◌||◌, Option, none, some,
  All, Gives, ok-Gives, bind-Gives, if-Gives, some-injective,
}
use mini_jvm.Hash.{str_eq}
use mini_jvm.Loader.{
  Name, File, Class, Table, class_is_interface, class_is_final, Load, load_interfaces, load_super,
  load_class_supers,
}
use mini_jvm.Loader.Supers.{Present, Supported, Closed, Present-Grows}
use mini_jvm.Loader.Parts.{Post, then-Post, Gives-from}

module _ (object_name : Name) (media : Name → Option File)
    (class_prepare : Table → Class → Bool) where
  -- A loader for the names below a rank.
  abbrev pub LoadsBelow : Load → (Name → ℕ) → ℕ → Type 0
  LoadsBelow load rank k =
      (t : Table) (n : Name)
      → Closed t
      → rank n < k
      → Gives (Post t (λ t' c. Present t' n)) (load t n)

  Interfaces : Class → List Name → Table → Class → Type 0
  Interfaces kclass names t c =
      All (Present t) names × (c ≡ record kclass { loading_supers = false })

  load_interfaces-Post :
      (load : Load) (rank : Name → ℕ) (k : ℕ) (kclass : Class) (names : List Name) (t : Table)
      → LoadsBelow load rank k
      → All (λ i. rank i < k) names
      → Closed t
      → Gives
          (Post t (Interfaces kclass names))
          (load_interfaces object_name media class_prepare load kclass names t)
  unfolding load_interfaces Interfaces
  load_interfaces-Post load rank k kclass [] t below lt closed =
      ok-Gives ((λ n c h. h), closed, (tt, refl))
  load_interfaces-Post load rank k kclass (n ∷ names) t below (lt, lts) closed =
      bind-Gives (below t n closed lt) (
        then-Post t (λ t' c. Present t' n) (Interfaces kclass (n ∷ names)) _
          (λ t' c g closed' present.
            Gives-from t t' (Interfaces kclass names) (Interfaces kclass (n ∷ names)) _ g
              (λ t'' d g' p. ((Present-Grows t' t'' n g' present, p.0), p.1))
              (load_interfaces-Post load rank k kclass names t' below lts closed')))

  -- What `load_class_supers` has done for a class.
  unfoldable pub WithSupers : Class → Table → Class → Type 0
  WithSupers c t c' = Supported t c' × (c'.name ≡ c.name)

  -- The end of `load_class_supers`, once the superclass is present.
  interfaces_left :
      (load : Load) (rank : Name → ℕ) (k : ℕ) (t : Table) (c : Class)
      → LoadsBelow load rank k
      → ((s : Name) → c.super_name ≡ some s → Present t s)
      → All (λ i. rank i < k) c.interface_info
      → Closed t
      → Gives (Post t (WithSupers c)) (
          load_interfaces object_name media class_prepare load
            (record c { loading_supers = true })
            c.interface_info
            t)
  unfolding WithSupers Interfaces
  interfaces_left load rank k t c below present lts closed =
      let kclass = record c { loading_supers = true } in
      Gives-from t t (Interfaces kclass c.interface_info) (WithSupers c) _ (λ n d h. h)
        (λ t' c' g p.
          let supported : Supported t' (record c { loading_supers = false }) = record {
            super = λ s a e. Present-Grows t t' s g (present s e);
            interfaces = λ a. p.0;
          } in
          subst (WithSupers c t') (sym p.1) (supported, refl))
        (load_interfaces-Post load rank k kclass c.interface_info t below lts closed)

  load_super-Post :
      (load : Load) (rank : Name → ℕ) (k : ℕ) (super : Option Name) (t : Table) (c : Class)
      → c.super_name ≡ super
      → LoadsBelow load rank k
      → ((s : Name) → c.super_name ≡ some s → rank s < k)
      → All (λ i. rank i < k) c.interface_info
      → Closed t
      → Gives (Post t (WithSupers c)) (
          load_super object_name media class_prepare load
            (record c { loading_supers = true })
            super
            t)
  unfolding load_super
  load_super-Post load rank k none t c e below lt lts closed =
      if-Gives (str_eq c.name object_name)
        (interfaces_left load rank k t c below
          (λ s h. let impossible : none ≡ some s = sym e ∙ h in absurd (cc)) lts closed)
        (ok-Gives ((λ n d h. h), closed))
  load_super-Post load rank k (some s) t c e below lt lts closed =
      bind-Gives (below t s closed (lt s e)) (
        then-Post t (λ t' d. Present t' s) (WithSupers c) _
          (λ t' d g closed' present.
            if-Gives (class_is_interface d || class_is_final d) (ok-Gives (g, closed')) (
              Gives-from t t' (WithSupers c) (WithSupers c) _ g (λ t'' c' g' p. p)
                (interfaces_left load rank k t' c below
                  (λ s' e'. subst (Present t') (some-injective (sym e ∙ e')) present) lts
                  closed'))))

  pub load_class_supers-Post :
      (load : Load) (rank : Name → ℕ) (k : ℕ) (t : Table) (c : Class)
      → LoadsBelow load rank k
      → ((s : Name) → c.super_name ≡ some s → rank s < k)
      → All (λ i. rank i < k) c.interface_info
      → Closed t
      → Gives (Post t (WithSupers c)) (load_class_supers object_name media class_prepare load t c)
  unfolding load_class_supers
  load_class_supers-Post load rank k t c below lt lts closed =
      load_super-Post load rank k c.super_name t c refl below lt lts closed
