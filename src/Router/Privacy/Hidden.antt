-- ===== src/Router/Privacy/Hidden.antt =====
-- What a payload that vad/router/privacy.py redacted tells of the payload.
use verified_agentic_develop.Router.Privacy.{
  redact_provider_payload, Value, Items, Fields, text, other, sequence, dict, nil, item, end, field,
  is_sensitive, redact, redact_items, redact_fields,
}
use verified_agentic_develop.Prelude.{
  sym, subst, ◌↔◌, inr, inl, Bool-cases, String, true, ◌≡◌, refl,
}

module _ (lower : String → String) {S : Type 0} where
  -- two payloads that differ in nothing but what stands under sensitive keys
  mutual
    pub data AreAlike : Value S → Value S → Type 0 where
      same_text_value : (t : String) → AreAlike (text t) (text t)
      same_other : (s : S) → AreAlike (other s) (other s)
      alike_items : {xs ys : Items S} → AreAlikeItems xs ys → AreAlike (sequence xs) (sequence ys)
      alike_dict : {xs ys : Fields S} → AreAlikeFields xs ys → AreAlike (dict xs) (dict ys)

    pub data AreAlikeItems : Items S → Items S → Type 0 where
      no_items : AreAlikeItems nil nil
      both :
          {v w : Value S} {xs ys : Items S}
          → AreAlike v w
          → AreAlikeItems xs ys
          → AreAlikeItems (item v xs) (item w ys)

    pub data AreAlikeFields : Fields S → Fields S → Type 0 where
      no_fields : AreAlikeFields end end
      hidden :
          (key : String) (v w : Value S) {xs ys : Fields S}
          → is_sensitive lower key ≡ true
          → AreAlikeFields xs ys
          → AreAlikeFields (field key v xs) (field key w ys)
      shown :
          (key : String) {v w : Value S} {xs ys : Fields S}
          → AreAlike v w
          → AreAlikeFields xs ys
          → AreAlikeFields (field key v xs) (field key w ys)

  mutual
    unfolding redact is_sensitive

    AreAlike-redact : {v w : Value S} → AreAlike v w → redact lower v ≡ redact lower w
    AreAlike-redact (same_text_value t) = refl
    AreAlike-redact (same_other s) = refl
    AreAlike-redact (alike_items h) = rw (AreAlikeItems-redact h) refl
    AreAlike-redact (alike_dict h) = rw (AreAlikeFields-redact h) refl

    AreAlikeItems-redact :
        {xs ys : Items S} → AreAlikeItems xs ys → redact_items lower xs ≡ redact_items lower ys
    AreAlikeItems-redact no_items = refl
    AreAlikeItems-redact (both h rest) = rw (AreAlike-redact h, AreAlikeItems-redact rest) refl

    AreAlikeFields-redact :
        {xs ys : Fields S} → AreAlikeFields xs ys → redact_fields lower xs ≡ redact_fields lower ys
    AreAlikeFields-redact no_fields = refl
    AreAlikeFields-redact (hidden key v w e rest) = rw (e, AreAlikeFields-redact rest) refl
    AreAlikeFields-redact (shown key h rest) =
        rw (AreAlike-redact h, AreAlikeFields-redact rest) refl

  mutual
    unfolding redact is_sensitive

    redact-AreAlike : (v : Value S) → AreAlike v (redact lower v)
    redact-AreAlike (text t) = same_text_value t
    redact-AreAlike (other s) = same_other s
    redact-AreAlike (sequence xs) = alike_items (redact-AreAlikeItems xs)
    redact-AreAlike (dict xs) = alike_dict (redact-AreAlikeFields xs)

    redact-AreAlikeItems : (xs : Items S) → AreAlikeItems xs (redact_items lower xs)
    redact-AreAlikeItems nil = no_items
    redact-AreAlikeItems (item v rest) = both (redact-AreAlike v) (redact-AreAlikeItems rest)

    redact-AreAlikeFields : (xs : Fields S) → AreAlikeFields xs (redact_fields lower xs)
    redact-AreAlikeFields end = no_fields
    redact-AreAlikeFields (field key v rest) =
        let after = redact-AreAlikeFields rest in
        let inner = redact-AreAlike v in
        elim (Bool-cases (is_sensitive lower key)) [
          | inl e ↦ rw e (hidden key v _ e after)
          | inr e ↦ rw e (shown key inner after)
        ]

  mutual
    AreAlike-sym : {v w : Value S} → AreAlike v w → AreAlike w v
    AreAlike-sym (same_text_value t) = same_text_value t
    AreAlike-sym (same_other s) = same_other s
    AreAlike-sym (alike_items h) = alike_items (AreAlikeItems-sym h)
    AreAlike-sym (alike_dict h) = alike_dict (AreAlikeFields-sym h)

    AreAlikeItems-sym : {xs ys : Items S} → AreAlikeItems xs ys → AreAlikeItems ys xs
    AreAlikeItems-sym no_items = no_items
    AreAlikeItems-sym (both h rest) = both (AreAlike-sym h) (AreAlikeItems-sym rest)

    AreAlikeFields-sym : {xs ys : Fields S} → AreAlikeFields xs ys → AreAlikeFields ys xs
    AreAlikeFields-sym no_fields = no_fields
    AreAlikeFields-sym (hidden key v w e rest) = hidden key w v e (AreAlikeFields-sym rest)
    AreAlikeFields-sym (shown key h rest) = shown key (AreAlike-sym h) (AreAlikeFields-sym rest)

  mutual
    AreAlike-trans : {u v w : Value S} → AreAlike u v → AreAlike v w → AreAlike u w
    AreAlike-trans (same_text_value t) k = k
    AreAlike-trans (same_other s) k = k
    AreAlike-trans (alike_items h) (alike_items k) = alike_items (AreAlikeItems-trans h k)
    AreAlike-trans (alike_dict h) (alike_dict k) = alike_dict (AreAlikeFields-trans h k)

    AreAlikeItems-trans :
        {xs ys zs : Items S} → AreAlikeItems xs ys → AreAlikeItems ys zs → AreAlikeItems xs zs
    AreAlikeItems-trans no_items k = k
    AreAlikeItems-trans (both h hs) (both k ks) =
        both (AreAlike-trans h k) (AreAlikeItems-trans hs ks)

    AreAlikeFields-trans :
        {xs ys zs : Fields S} → AreAlikeFields xs ys → AreAlikeFields ys zs → AreAlikeFields xs zs
    AreAlikeFields-trans no_fields k = k
    AreAlikeFields-trans (hidden key v w e hs) (hidden _ _ u _ ks) =
        hidden key v u e (AreAlikeFields-trans hs ks)
    AreAlikeFields-trans (hidden key v w e hs) (shown _ {w = u} _ ks) =
        hidden key v u e (AreAlikeFields-trans hs ks)
    AreAlikeFields-trans (shown key {v = v} h hs) (hidden _ _ u e ks) =
        hidden key v u e (AreAlikeFields-trans hs ks)
    AreAlikeFields-trans (shown key h hs) (shown _ k ks) =
        shown key (AreAlike-trans h k) (AreAlikeFields-trans hs ks)

  -- Two payloads have the same redacted form exactly when they differ in nothing but what stands
  -- under sensitive keys, at any depth.
  pub redact_provider_payload-equal_iff :
      (p q : Fields S)
      → (redact_provider_payload lower p ≡ redact_provider_payload lower q) ↔ AreAlikeFields p q
  unfolding redact_provider_payload redact
  redact_provider_payload-equal_iff p q = (
    λ e.
        AreAlikeFields-trans (redact-AreAlikeFields p)
          (subst (λ r. AreAlikeFields r q) (sym e) (AreAlikeFields-sym (redact-AreAlikeFields q))),
    AreAlikeFields-redact,
  )
