-- ===== src/Router/Drift/Allowed.antt =====
-- When vad/router/drift.py finds that a provider may go on.
use verified_agentic_develop.Prelude.{
  ℕ, String, true, Option, none, some, List, [], ◌∷◌, ◌++◌, ◌≡◌, refl, subst, if◌then◌else◌, ◌↔◌,
  ◌≤◌, All, ltb, arith, if_true, if_false, Bool-cases, inl, inr, Bool, false, ◌==◌, sym, ap, ◌∙◌,
  eq_iff, eq_refl,
}
use verified_agentic_develop.Deploy.Provider.{get, put}
use verified_agentic_develop.Deploy.Provider.Undo.{get-put}
use verified_agentic_develop.Router.Drift.{
  ProviderModel, ProviderInventory, add_models, is_empty, denials_of, all_denials,
  detect_provider_drift,
}

is_empty-append :
    (xs ys : List String)
    → (is_empty (xs ++ ys) ≡ true) ↔ ((is_empty xs ≡ true) × (is_empty ys ≡ true))
unfolding is_empty
is_empty-append [] ys = (λ h. (refl, h), λ h. h.1)
is_empty-append (x ∷ xs) ys = (λ h. cc, λ h. cc)

room : (a b : ℕ) (x : String) → (is_empty (if ltb a b then x ∷ [] else []) ≡ true) ↔ (b ≤ a)
unfolding is_empty
room a b x = elim (Bool-cases (ltb a b)) [
  | inl e ↦ rw (if_true {b = ltb a b} (x ∷ []) [] e) (λ h. cc, λ le. ground arith)
  | inr e ↦ rw (if_false {b = ltb a b} (x ∷ []) [] e) (λ h. ground arith, λ le. refl)
]

or_else : {A : Type 0} → Option A → Option A → Option A
or_else none other = other
or_else (some a) other = some a

or_else-none : {A : Type 0} (o : Option A) → or_else o none ≡ o
unfolding or_else
or_else-none none = refl
or_else-none (some a) = refl

or_else-split :
    {A : Type 0} (o : Option A) (b : Bool) (x : A) (y : Option A)
    → or_else o (if b then some x else y) ≡ or_else (or_else o (if b then some x else none)) y
unfolding or_else
or_else-split none true x y = refl
or_else-split none false x y = refl
or_else-split (some a) b x y = refl

eq_swap : (a b : String) → (a == b) ≡ (b == a)
eq_swap a b = ground (arith, eq_iff a b, eq_iff b a)

module _ {F : Type 0} where
  -- a model is still there with no smaller context
  pub IsServed : List (String × ProviderModel F) → String × ProviderModel F → Type 0
  IsServed actual (name, m) =
      (a : ProviderModel F) × (get actual name ≡ some a) × (m.context_limit ≤ a.context_limit)

  HasRoom : ProviderModel F → Option (ProviderModel F) → Type 0
  HasRoom m found = (a : ProviderModel F) × (found ≡ some a) × (m.context_limit ≤ a.context_limit)

  denials_of-is_empty_iff :
      (name : String) (m : ProviderModel F) (found : Option (ProviderModel F))
      → (is_empty (denials_of name m found) ≡ true) ↔ HasRoom m found
  unfolding denials_of is_empty HasRoom
  denials_of-is_empty_iff name m none = (λ h. cc, λ (a, e, le). cc)
  denials_of-is_empty_iff name m (some a) = (
    λ h. (a, refl, (room a.context_limit m.context_limit _).0 h),
    λ (x, e, le).
        let same : x ≡ a = cc in
        (room a.context_limit m.context_limit _).1
          (subst (λ (y : ProviderModel F). m.context_limit ≤ y.context_limit) same le),
  )

  all_denials-is_empty_iff :
      (actual expected : List (String × ProviderModel F))
      → (is_empty (all_denials actual expected) ≡ true) ↔ All (IsServed actual) expected
  unfolding all_denials is_empty IsServed HasRoom
  all_denials-is_empty_iff actual [] = (λ h. tt, λ h. refl)
  all_denials-is_empty_iff actual ((name, m) ∷ rest) =
      let both = is_empty-append (denials_of name m (get actual name)) (all_denials actual rest) in
      let here = denials_of-is_empty_iff name m (get actual name) in
      let later = all_denials-is_empty_iff actual rest in
      (λ h. (here.0 (both.0 h).0, later.0 (both.0 h).1), λ h. both.1 (here.1 h.0, later.1 h.1))

  -- the last model of a name
  pub last_named : String → List (ProviderModel F) → Option (ProviderModel F)
  last_named name [] = none
  last_named name (m ∷ ms) = or_else (last_named name ms) (if m.name == name then some m else none)

  get-add_models :
      (d : List (String × ProviderModel F)) (ms : List (ProviderModel F)) (name : String)
      → get (add_models d ms) name ≡ or_else (last_named name ms) (get d name)
  unfolding add_models last_named or_else get
  get-add_models d [] name = refl
  get-add_models d (m ∷ ms) name =
      get-add_models (put d m.name m) ms name
      ∙ ap (or_else (last_named name ms)) (get-put d m.name name m)
      ∙ or_else-split (last_named name ms) (m.name == name) m (get d name)

  -- no key stands twice
  AreDistinct : List (String × ProviderModel F) → Type 0
  AreDistinct [] = Unit
  AreDistinct ((k, v) ∷ rest) = (get rest k ≡ none) × AreDistinct rest

  put-AreDistinct :
      (d : List (String × ProviderModel F)) (k : String) (v : ProviderModel F)
      → AreDistinct d
      → AreDistinct (put d k v)
  unfolding AreDistinct put get
  put-AreDistinct [] k v h = (refl, tt)
  put-AreDistinct ((i, w) ∷ rest) k v h = elim (Bool-cases (i == k)) [
    | inl e ↦ rw (if_true {b = i == k} ((i, v) ∷ rest) ((i, w) ∷ put rest k v) e) h
    | inr e ↦
        rw (if_false {b = i == k} ((i, v) ∷ rest) ((i, w) ∷ put rest k v) e)
          (get-put rest k i v ∙ if_false _ _ (eq_swap k i ∙ e) ∙ h.0, put-AreDistinct rest k v h.1)
  ]

  add_models-AreDistinct :
      (d : List (String × ProviderModel F)) (ms : List (ProviderModel F))
      → AreDistinct d
      → AreDistinct (add_models d ms)
  unfolding add_models
  add_models-AreDistinct d [] h = h
  add_models-AreDistinct d (m ∷ ms) h =
      add_models-AreDistinct (put d m.name m) ms (put-AreDistinct d m.name m h)

  -- what holds of every entry holds of every key that is found
  All-get :
      (P : String × ProviderModel F → Type 0) (d : List (String × ProviderModel F))
      → All P d
      → (k : String) (v : ProviderModel F) → get d k ≡ some v
      → P (k, v)
  unfolding get
  All-get P [] h k v found = cc
  All-get P ((i, w) ∷ rest) h k v found = elim (Bool-cases (i == k)) [
    | inl e ↦
        let same : w ≡ v =
          (let g = sym (if_true {b = i == k} (some w) (get rest k) e) ∙ found in cc) in
        subst (λ x. P (k, x)) same (subst (λ x. P (x, w)) ((eq_iff i k).0 e) h.0)
    | inr e ↦ All-get P rest h.1 k v (sym (if_false {b = i == k} (some w) (get rest k) e) ∙ found)
  ]

  get-All :
      (P : String × ProviderModel F → Type 0) (d : List (String × ProviderModel F))
      → AreDistinct d
      → ((k : String) (v : ProviderModel F) → get d k ≡ some v → P (k, v))
      → All P d
  unfolding get AreDistinct
  get-All P [] h f = tt
  get-All P ((i, w) ∷ rest) h f = (
    f i w (if_true _ _ (eq_refl i)),
    get-All P rest h.1 (λ k v found. elim (Bool-cases (i == k)) [
      | inl e ↦
          (let g : some v ≡ none = sym found ∙ ap (get rest) (sym ((eq_iff i k).0 e)) ∙ h.0 in cc)
      | inr e ↦ f k v (if_false _ _ e ∙ found)
    ]),
  )

  get-last_named :
      (ms : List (ProviderModel F)) (name : String)
      → get (add_models [] ms) name ≡ last_named name ms
  unfolding get
  get-last_named ms name = get-add_models [] ms name ∙ or_else-none (last_named name ms)

  -- The report allows exactly if for every name that the expected inventory has a model of, the actual
  -- inventory has one too, with a context limit that is no smaller; where several models have one name,
  -- the last one counts, on both sides.
  pub detect_provider_drift-allow_iff :
      (expected actual : ProviderInventory F)
      → ((detect_provider_drift expected actual).allow ≡ true) ↔ (
          (name : String) (m : ProviderModel F)
          → last_named name expected.models ≡ some m
          → (a : ProviderModel F) × (last_named name actual.models ≡ some a)
            × (m.context_limit ≤ a.context_limit))
  unfolding detect_provider_drift IsServed AreDistinct
  detect_provider_drift-allow_iff expected actual =
      let e = add_models [] expected.models in
      let a = add_models [] actual.models in
      let all = all_denials-is_empty_iff a e in
      (
        λ h name m found.
            let (x, there, le) =
              All-get (IsServed a) e (all.0 h) name m
                (get-last_named expected.models name ∙ found) in
            (x, sym (get-last_named actual.models name) ∙ there, le),
        λ f. all.1 (
            get-All (IsServed a) e (add_models-AreDistinct [] expected.models tt) (λ name m found.
              let (x, there, le) = f name m (sym (get-last_named expected.models name) ∙ found) in
              (x, get-last_named actual.models name ∙ there, le))),
      )
