-- ===== src/Attribute/Attach.antt =====
-- The store of descriptors after an application descriptor was put in place of another.
use mariadb_connector_odbc.Base.{
  ℕ, ◌≡◌, refl, ap, ◌∙◌, Bool, true, false, ◌||◌, some, List, [], ◌∷◌, ◌++◌, ◌==◌, Bool-cases, inl,
  inr, arith,
}
use mariadb_connector_odbc.Attribute.{DescObject, update, remove_stmt_ref, attach}
use mariadb_connector_odbc.Descriptor.{DescType}

abbrev pub listed : ℕ → List ℕ → Bool
listed a [] = false
listed a (x ∷ xs) = a == x || listed a xs

pub listed-append : (a : ℕ) (xs : List ℕ) → listed a (xs ++ a ∷ []) ≡ true
listed-append a [] = ground arith
listed-append a (x ∷ xs) = elim (Bool-cases (a == x)) [
  | inl h ↦ rw h refl
  | inr h ↦ rw h (listed-append a xs)
]

pub remove_stmt_ref-kind : (stmt : ℕ) (d : DescObject) → (remove_stmt_ref stmt d).kind ≡ d.kind
remove_stmt_ref-kind stmt d = elim (Bool-cases d.is_explicit) [
  | inl h ↦ rw h refl
  | inr h ↦ rw h refl
]

-- A change that keeps the types of descriptors.
pub update-kind :
    (f : ℕ → DescObject) (a x : ℕ) (g : DescObject → DescObject)
    → ((d : DescObject) → (g d).kind ≡ d.kind)
    → (update f a g x).kind ≡ (f x).kind
update-kind f a x g h = elim (Bool-cases (a == x)) [ inl q ↦ rw q (h (f x)) | inr q ↦ rw q refl ]

pub update-here :
    (f : ℕ → DescObject) (a : ℕ) (g : DescObject → DescObject) → update f a g a ≡ g (f a)
update-here f a g = let same : (a == a) ≡ true = ground arith in rw same refl

pub update-elsewhere :
    (f : ℕ → DescObject) (a x : ℕ) (g : DescObject → DescObject)
    → (a == x) ≡ false
    → update f a g x ≡ f x
update-elsewhere f a x g h = rw h refl

module _ (t : DescType) (stmt old own desc : ℕ) (f : ℕ → DescObject) where
  abbrev removed : ℕ → DescObject
  removed = update f old (remove_stmt_ref stmt)

  abbrev typed : ℕ → DescObject
  typed = update removed desc (λ d. record d { kind = some t })

  typed-kind : (typed desc).kind ≡ some t
  typed-kind = ap (λ d. d.kind) (update-here removed desc (λ d. record d { kind = some t }))

  pub attach-kind : (attach t stmt old own desc f desc).kind ≡ some t
  unfolding attach
  attach-kind = elim (Bool-cases (desc == own)) [
    | inl h ↦ rw h typed-kind
    | inr h ↦ rw h (
        update-kind typed desc desc (λ d. record d { stmts = d.stmts ++ stmt ∷ [] }) (λ d. refl)
        ∙ typed-kind)
  ]

  pub attach-kind_kept :
      (x : ℕ) → (desc == x) ≡ false → (attach t stmt old own desc f x).kind ≡ (f x).kind
  unfolding attach
  attach-kind_kept x e =
      let base =
        ap (λ d. d.kind) (update-elsewhere removed desc x (λ d. record d { kind = some t }) e)
        ∙ update-kind f old x (remove_stmt_ref stmt) (remove_stmt_ref-kind stmt) in
      elim (Bool-cases (desc == own)) [
        | inl h ↦ rw h base
        | inr h ↦ rw h (
            update-kind typed desc x (λ d. record d { stmts = d.stmts ++ stmt ∷ [] }) (λ d. refl)
            ∙ base)
      ]

  pub attach-listed :
      (desc == own) ≡ false → listed stmt (attach t stmt old own desc f desc).stmts ≡ true
  unfolding attach
  attach-listed h = rw h (
      ap (λ d. listed stmt d.stmts)
        (update-here typed desc (λ d. record d { stmts = d.stmts ++ stmt ∷ [] }))
      ∙ listed-append stmt (typed desc).stmts)

  pub attach-elsewhere :
      (x : ℕ) → (old == x) ≡ false → (desc == x) ≡ false → attach t stmt old own desc f x ≡ f x
  unfolding attach
  attach-elsewhere x h e =
      let base =
        update-elsewhere removed desc x (λ d. record d { kind = some t }) e
        ∙ update-elsewhere f old x (remove_stmt_ref stmt) h in
      elim (Bool-cases (desc == own)) [
        | inl h ↦ rw h base
        | inr h ↦ rw h (
            update-elsewhere typed desc x (λ d. record d { stmts = d.stmts ++ stmt ∷ [] }) e ∙ base)
      ]
