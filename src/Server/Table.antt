-- ===== src/Server/Table.antt =====
-- A table of vad/server/db/store.py with a primary key: its rows, `SELECT` by key and `INSERT` with
-- `ON CONFLICT DO UPDATE`.
use verified_agentic_develop.Prelude.{
  ◌++◌, sym, ◌∙◌, inl, inr, inr, inl, Bool, true, false, List, [], ◌∷◌, Option, none, some, ◌≡◌,
  refl, ◌↔◌, if◌then◌else◌, Bool-cases, if_true, if_false,
}

module _ {K R : Type 0} (same : K → K → Bool) (key : R → K) where
  unfoldable pub lookup : K → List R → Option R
  lookup k [] = none
  lookup k (r ∷ rs) = if same (key r) k then some r else lookup k rs

  unfoldable pub upsert : R → List R → List R
  upsert r [] = r ∷ []
  upsert r (x ∷ xs) = if same (key x) (key r) then r ∷ xs else x ∷ upsert r xs

  -- a row that is found is found with more rows behind it
  pub lookup-append :
      (k : K) (rows more : List R) (r : R)
      → lookup k rows ≡ some r
      → lookup k (rows ++ more) ≡ some r
  unfolding lookup
  lookup-append k [] more r h = cc
  lookup-append k (x ∷ xs) more r h = elim (Bool-cases (same (key x) k)) [
    | inl e ↦ if_true _ _ e ∙ (sym (if_true _ _ e) ∙ h)
    | inr e ↦ if_false _ _ e ∙ lookup-append k xs more r (sym (if_false _ _ e) ∙ h)
  ]

  module _ (same_iff : (a b : K) → (same a b ≡ true) ↔ (a ≡ b)) where
    same_refl : (k : K) → same k k ≡ true
    same_refl k = (same_iff k k).1 refl

    -- a row that was put in is found
    pub lookup-upsert : (r : R) (rows : List R) → lookup (key r) (upsert r rows) ≡ some r
    unfolding lookup upsert
    lookup-upsert r [] = if_true _ _ (same_refl (key r))
    lookup-upsert r (x ∷ xs) = elim (Bool-cases (same (key x) (key r))) [
      | inl e ↦ rw (if_true _ _ e) (if_true _ _ (same_refl (key r)))
      | inr e ↦ rw (if_false _ _ e) (rw (if_false _ _ e) (lookup-upsert r xs))
    ]

    -- the other rows stay
    pub lookup-upsert_other :
        (r : R) (k : K) (rows : List R)
        → same (key r) k ≡ false
        → lookup k (upsert r rows) ≡ lookup k rows
    unfolding lookup upsert
    lookup-upsert_other r k [] h = if_false _ _ h
    lookup-upsert_other r k (x ∷ xs) h = elim (Bool-cases (same (key x) (key r))) [
      | inl e ↦
          let e' : key x ≡ key r = (same_iff (key x) (key r)).0 e in
          let h' : same (key x) k ≡ false = rw e' h in rw (if_true _ _ e, h, h') refl
      | inr e ↦ rw (if_false _ _ e, lookup-upsert_other r k xs h) refl
    ]

    -- a found row has the key
    pub lookup-key : (k : K) (rows : List R) (r : R) → lookup k rows ≡ some r → key r ≡ k
    unfolding lookup
    lookup-key k [] r h = cc
    lookup-key k (x ∷ xs) r h = elim (Bool-cases (same (key x) k)) [
      | inl e ↦
          let e' : key x ≡ k = (same_iff (key x) k).0 e in
          let h' : some x ≡ some r = sym (if_true _ _ e) ∙ h in cc
      | inr e ↦ lookup-key k xs r (sym (if_false _ _ e) ∙ h)
    ]
