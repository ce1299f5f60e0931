-- ===== src/Router/Routing/Safe.antt =====
-- vad/router/routing.py: a request gets a model that the rules allow and the budget covers.
use verified_agentic_develop.Prelude.Sort.Members.{sort-All}
use verified_agentic_develop.Prelude.{
  ltb, sym, ◌∙◌, ◌==◌, eq_iff, keep_if, Bool, All, All-map, All-zip, All-mem, All-self, ℕ, ◌+◌,
  String, true, false, not, List, [], ◌∷◌, Result, ok, raise, ◌≡◌, refl, ◌⊎◌, inl, inr, Bool-cases,
  if_true, if_false, Memᴰ, ap,
}
use verified_agentic_develop.Prelude.Float.{FloatOps}
use verified_agentic_develop.Policy.{PolicyDecision, Evaluate}
use verified_agentic_develop.Router.Budget.{increment_depth, charge}
use verified_agentic_develop.Router.Routing.{
  route_over, after_depth, route, cheaper, dearer, needs_tier2, ordered_candidates, ModelInfo,
  RouteRequest, Router, estimated_cost_of, record_choice, after_charge, choose, consider,
  decision_for, try_models,
}

module _ {F : Type 0} ⦃fl : FloatOps F⦄ (evaluate : Evaluate) (request : RouteRequest F) where
  -- what a chosen model has to be, when `spent` was spent before and `limit` is the budget
  pub record IsFit (models : List (ModelInfo F)) (spent limit : F) (after : Router F)
      (name : String) : Type 0 where
    pub model : ModelInfo F
    pub offered : Memᴰ model models
    pub named : model.name ≡ name
    pub decision : PolicyDecision
    pub decided : decision_for evaluate request model ≡ ok decision
    pub allowed : decision.allow ≡ true
    pub charged : after.budget.spent ≡ fl.fadd spent (estimated_cost_of model)
    pub covered : fl.fle after.budget.spent limit ≡ true

  -- a model whose cost is negative, so that no decision can be made of it
  abbrev pub HasNegative : List (ModelInfo F) → Type 0
  HasNegative models =
      (m : ModelInfo F) × Memᴰ m models × (fl.fle fl.fzero (estimated_cost_of m) ≡ false)

  abbrev pub IsSafe : List (ModelInfo F) → F → F → Result String × Router F → Type 0
  IsSafe models spent limit (ok name, after) = IsFit models spent limit after name
  IsSafe models spent limit (raise problem, after) =
      (after.budget.spent ≡ spent) ⊎ HasNegative models

  choose-IsSafe :
      (index : ℕ) (m : ModelInfo F) (ms : List (ModelInfo F)) (d : PolicyDecision) (s : Router F)
      → decision_for evaluate request m ≡ ok d
      → d.allow ≡ true
      → fl.fle (fl.fadd s.budget.spent (estimated_cost_of m)) s.budget.max_budget ≡ true
      → IsSafe (m ∷ ms) s.budget.spent s.budget.max_budget (choose request index m d s)
  unfolding choose charge after_charge record_choice
  choose-IsSafe index m ms d s decided allowed covered =
      rw (fl.not-flt_of_fle _ _ covered)
        (elim (Bool-cases (fl.fle fl.fzero (estimated_cost_of m))) [
          | inl e ↦ rw e (record {
            model = m;
            offered = Memᴰ.head refl;
            named = refl;
            decision = d;
            decided = decided;
            allowed = allowed;
            charged = refl;
            covered = covered;
          })
          | inr e ↦ rw e (inr (m, Memᴰ.head refl, e))
        ])

  wider :
      (m : ModelInfo F) (ms : List (ModelInfo F)) (spent limit : F) (r : Result String × Router F)
      → IsSafe ms spent limit r
      → IsSafe (m ∷ ms) spent limit r
  wider m ms spent limit (ok name, after) fit = record {
    model = fit.model;
    offered = Memᴰ.tail fit.offered;
    named = fit.named;
    decision = fit.decision;
    decided = fit.decided;
    allowed = fit.allowed;
    charged = fit.charged;
    covered = fit.covered;
  }
  wider m ms spent limit (raise problem, after) (inl same) = inl same
  wider m ms spent limit (raise problem, after) (inr (n, offered, low)) =
      inr (n, Memᴰ.tail offered, low)

  consider-IsSafe :
      (index : ℕ) (m : ModelInfo F) (ms : List (ModelInfo F))
      (later : Router F → Result String × Router F)
      → ((s : Router F) → IsSafe ms s.budget.spent s.budget.max_budget (later s))
      → (decided : Result PolicyDecision) (s : Router F) → decision_for evaluate request m ≡ decided
      → IsSafe
          (m ∷ ms)
          s.budget.spent
          s.budget.max_budget
          (consider request index m later decided s)
  unfolding consider
  consider-IsSafe index m ms later safe (raise problem) s e = inl refl
  consider-IsSafe index m ms later safe (ok d) s e = elim (Bool-cases d.allow) [
    | inr no_ ↦
        rw (if_true _ _ (ap not no_)) (
          wider m ms s.budget.spent s.budget.max_budget _ (safe (record s { evidence_events = _ })))
    | inl allowed ↦
        rw (if_false _ _ (ap not allowed))
          (elim (Bool-cases
            (fl.fle (fl.fadd s.budget.spent (estimated_cost_of m)) s.budget.max_budget)) [
              | inl covered ↦
                  rw (if_true _ _ covered) (choose-IsSafe index m ms d s e allowed covered)
              | inr dear ↦
                  rw (if_false _ _ dear) (wider m ms s.budget.spent s.budget.max_budget _ (safe s))
            ])
  ]

  try_models-IsSafe :
      (index : ℕ) (ms : List (ModelInfo F)) (s : Router F)
      → IsSafe ms s.budget.spent s.budget.max_budget (try_models evaluate request index ms s)
  unfolding try_models
  try_models-IsSafe index [] s = inl refl
  try_models-IsSafe index (m ∷ ms) s =
      consider-IsSafe index m ms (try_models evaluate request (index + 1) ms)
        (try_models-IsSafe (index + 1) ms) (decision_for evaluate request m) s refl

  route_over-IsSafe :
      (ms : List (ModelInfo F)) (s : Router F)
      → IsSafe ms s.budget.spent s.budget.max_budget (route_over evaluate request ms s)
  unfolding route_over
  route_over-IsSafe [] s = inl refl
  route_over-IsSafe (m ∷ ms) s = try_models-IsSafe 0 (m ∷ ms) s

  -- the candidates are models of the provider, of the tier that is required
  abbrev IsOffered : List (ModelInfo F) → ModelInfo F → Type 0
  IsOffered models m = Memᴰ m models × ((needs_tier2 request ≡ false) ⊎ (m.tier ≡ "tier2"))

  tier2_only :
      (models : List (ModelInfo F))
      → All (λ m. m.tier ≡ "tier2") (keep_if (λ m. m.tier == "tier2") models)
  tier2_only [] = tt
  tier2_only (m ∷ ms) = elim (Bool-cases (m.tier == "tier2")) [
    | inl e ↦ rw e ((eq_iff m.tier "tier2").0 e, tier2_only ms)
    | inr e ↦ rw e (tier2_only ms)
  ]

  kept_offered :
      (f : ModelInfo F → Bool) (models : List (ModelInfo F))
      → All (λ m. Memᴰ m models) (keep_if f models)
  kept_offered f [] = tt
  kept_offered f (m ∷ ms) =
      let rest = All-map (keep_if f ms) (λ n o. Memᴰ.tail {x = m} o) (kept_offered f ms) in
      elim (Bool-cases (f m)) [ inl e ↦ rw e (Memᴰ.head refl, rest) | inr e ↦ rw e rest ]

  candidates-IsOffered :
      (models : List (ModelInfo F)) → All (IsOffered models) (ordered_candidates models request)
  unfolding ordered_candidates
  candidates-IsOffered models = elim (Bool-cases (needs_tier2 request)) [
    | inl e ↦ rw (if_true {b = needs_tier2 request} _ _ e) (
        sort-All dearer _ _ (
          All-zip (keep_if (λ m. m.tier == "tier2") models) (kept_offered _ models)
            (tier2_only models) (λ m o t. (o, inr t))))
    | inr e ↦ rw (if_false {b = needs_tier2 request} _ _ e) (
        let all = All-map models (λ m o. (o, inl e)) (All-self models) in
        elim (Bool-cases (request.purpose == "formatting")) [
          | inl f ↦
              rw (if_true {b = request.purpose == "formatting"} _ _ f)
                (sort-All cheaper _ models all)
          | inr f ↦
              rw (if_false {b = request.purpose == "formatting"} _ _ f)
                (sort-All dearer _ models all)
        ])
  ]

  -- What a route returns or leaves: the name of a model that the provider offers, of tier 2 where that is
  -- required, that the rules allow and the budget covers, whose cost is charged once; or an exception, and
  -- then nothing is charged, or a model of the provider has a negative cost.
  abbrev pub IsRouted : List (ModelInfo F) → Router F → Result String × Router F → Type 0
  IsRouted models before (ok name, after) =
      (m : ModelInfo F) × IsOffered models m
      × (m.name ≡ name)
      × (d : PolicyDecision) × (decision_for evaluate request m ≡ ok d)
      × (d.allow ≡ true)
      × (after.budget.spent ≡ fl.fadd before.budget.spent (estimated_cost_of m))
      × (fl.fle after.budget.spent before.budget.max_budget ≡ true)
  IsRouted models before (raise problem, after) =
      (after.budget.spent ≡ before.budget.spent) ⊎ HasNegative models

  routed :
      (models : List (ModelInfo F)) (before s : Router F) (r : Result String × Router F)
      → before.budget.spent ≡ s.budget.spent
      → before.budget.max_budget ≡ s.budget.max_budget
      → IsSafe (ordered_candidates models request) s.budget.spent s.budget.max_budget r
      → IsRouted models before r
  routed models before s (ok name, after) same limit fit = (
    fit.model,
    All-mem _ fit.model _ (candidates-IsOffered models) fit.offered,
    fit.named,
    fit.decision,
    fit.decided,
    fit.allowed,
    rw same fit.charged,
    rw limit fit.covered,
  )
  routed models before s (raise problem, after) same limit (inl kept) = inl (kept ∙ sym same)
  routed models before s (raise problem, after) same limit (inr (m, offered, low)) =
      inr (m, (All-mem _ m _ (candidates-IsOffered models) offered).0, low)

  -- A route that returns names a model that the provider offers, of tier 2 for a request of high risk or for
  -- verification; the rules allow its tier, its cost is charged and what is spent then stays within the
  -- budget. A route that raises charges nothing, or the provider offers a model of negative cost.
  pub route-IsRouted :
      (models : List (ModelInfo F)) (s : Router F)
      → IsRouted models s (route evaluate request models s)
  unfolding route after_depth increment_depth
  route-IsRouted models s =
      elim (Bool-cases (ltb s.budget.max_depth (s.budget.current_depth + 1))) [
        | inl e ↦ rw e (inl refl)
        | inr e ↦ rw e (
            routed models s s _ refl refl (
              route_over-IsSafe (ordered_candidates models request) (record s {
                budget = record s.budget { current_depth = s.budget.current_depth + 1 };
              })))
      ]
