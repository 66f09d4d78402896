-- ===== src/Prepare/Vtable/Kept.antt =====
-- What the turns of `prepare_methods` (korp_src/class/class_prepare.cpp) keep of the methods.
use mini_jvm.Common.{
  ℕ, ◌≡◌, ◌≢◌, refl, sym, ap, ◌∙◌, inl, inr, List, true, ◌==◌, ==_iff, ne→==, Memᴰ, Bool-cases,
}
use mini_jvm.Prepare.Vtable.{Method, Store, update, override, Placing}
use mini_jvm.Prepare.Vtable.Slots.{Step, skipped, overriding, placed, Steps, done, turn}

-- What a turn never changes of a method.
pub record Same (m m' : Method) : Type 0 where
  pub name : m'.name ≡ m.name
  pub descriptor : m'.descriptor ≡ m.descriptor
  pub modifier : m'.modifier ≡ m.modifier

abbrev pub Kept : Store → Store → Type 0
Kept store store' = (c : ℕ) → Same (store c) (store' c)

module _ {ℓ} {A : Type ℓ} (f : Method → A) where
  update-keeps :
      (store : Store) (a : ℕ) (m : Method)
      → f m ≡ f (store a)
      → (c : ℕ) → f (update store a m c) ≡ f (store c)
  update-keeps store a m h c = elim (Bool-cases (c == a)) [
    | inl e ↦ rw e (h ∙ ap (λ x. f (store x)) (sym ((==_iff c a).0 e)))
    | inr e ↦ rw e refl
  ]

  -- Whatever the offset and the mark do not matter to.
  override-keeps :
      (h : (m : Method) (o : ℕ) → f (record m { offset = o }) ≡ f m)
      → (g : (m : Method) → f (record m { is_overridden = true }) ≡ f m)
      → (store : Store) (b a c : ℕ) → f (override store b a c) ≡ f (store c)
  override-keeps h g store b a c =
      let moved = update store b (record (store b) { offset = (store a).offset }) in
      update-keeps moved a (record (moved a) { is_overridden = true }) (g (moved a)) c
      ∙ update-keeps store b (record (store b) { offset = (store a).offset })
          (h (store b) (store a).offset) c

pub update_self : (store : Store) (a : ℕ) (m : Method) → update store a m a ≡ m
update_self store a m = rw ((==_iff a a).1 refl) refl

pub update_ne : (store : Store) (a : ℕ) (m : Method) {c : ℕ} → c ≢ a → update store a m c ≡ store c
update_ne store a m {c} h = rw (ne→== c a h) refl

pub Same-trans : {m m' m'' : Method} → Same m m' → Same m' m'' → Same m m''
Same-trans p q = record {
  name = q.name ∙ p.name;
  descriptor = q.descriptor ∙ p.descriptor;
  modifier = q.modifier ∙ p.modifier;
}

pub Step-Kept : {info : List ℕ} {b : ℕ} {p q : Placing} → Step info b p q → Kept p.store q.store
Step-Kept (skipped e) c = record { name = refl; descriptor = refl; modifier = refl }
Step-Kept {b} {p} (overriding a j e g s) c = record {
  name = override-keeps (λ m. m.name) (λ m o. refl) (λ m. refl) p.store b a c;
  descriptor = override-keeps (λ m. m.descriptor) (λ m o. refl) (λ m. refl) p.store b a c;
  modifier = override-keeps (λ m. m.modifier) (λ m o. refl) (λ m. refl) p.store b a c;
}
Step-Kept {b} {p} (placed e) c =
    let m = record (p.store b) { offset = p.offset } in
    record {
      name = update-keeps (λ m. m.name) p.store b m refl c;
      descriptor = update-keeps (λ m. m.descriptor) p.store b m refl c;
      modifier = update-keeps (λ m. m.modifier) p.store b m refl c;
    }

pub Steps-Kept : {info bs : List ℕ} {p r : Placing} → Steps info bs p r → Kept p.store r.store
Steps-Kept done c = record { name = refl; descriptor = refl; modifier = refl }
Steps-Kept (turn s rest) c = Same-trans (Step-Kept s c) (Steps-Kept rest c)

-- The offset that an overriding method takes, and those of all others.
override-offset :
    (store : Store) (b a c : ℕ)
    → (override store b a c).offset
      ≡ (update store b (record (store b) { offset = (store a).offset }) c).offset
override-offset store b a c =
    let moved = update store b (record (store b) { offset = (store a).offset }) in
    update-keeps (λ m. m.offset) moved a (record (moved a) { is_overridden = true }) refl c

pub override-offset_self :
    (store : Store) (b a : ℕ) → (override store b a b).offset ≡ (store a).offset
override-offset_self store b a =
    override-offset store b a b
    ∙ ap (λ m. m.offset) (update_self store b (record (store b) { offset = (store a).offset }))

pub Step-offset :
    {info : List ℕ} {b : ℕ} {p q : Placing}
    → Step info b p q
    → (c : ℕ) → c ≢ b
    → (q.store c).offset ≡ (p.store c).offset
Step-offset (skipped e) c n = refl
Step-offset {b} {p} (overriding a j e g s) c n =
    override-offset p.store b a c
    ∙ ap (λ m. m.offset)
        (update_ne p.store b (record (p.store b) { offset = (p.store a).offset }) n)
Step-offset {b} {p} (placed e) c n =
    ap (λ m. m.offset) (update_ne p.store b (record (p.store b) { offset = p.offset }) n)

pub Steps-offset :
    {info bs : List ℕ} {p r : Placing}
    → Steps info bs p r
    → (c : ℕ) → (Memᴰ c bs → ⊥)
    → (r.store c).offset ≡ (p.store c).offset
Steps-offset done c n = refl
Steps-offset (turn s rest) c n =
    Steps-offset rest c (λ m. n (Memᴰ.tail m)) ∙ Step-offset s c (λ e. n (Memᴰ.head e))
