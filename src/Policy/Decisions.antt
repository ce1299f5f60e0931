-- ===== src/Policy/Decisions.antt =====
-- When the engine of vad/policy/engine.py allows.
use verified_agentic_develop.Prelude.{
  String, ◌≡◌, ◌≢◌, refl, ◌↔◌, inl, inr, true, false, List, [], ◌∷◌, ok, >>=-eq-ok, All, arith,
  Bool-cases,
}
use verified_agentic_develop.Policy.{
  PolicyDecision, Value, boolean, is_true, Input, Evaluate, deny_queries, allow_query,
  collect_denials, decide_allow, evaluate_decision,
}

-- the rule of the query was answered, and not by `True`
abbrev pub Refrains : Evaluate → Input → String × String → Type 0
Refrains evaluate input q = (v : Value) × (evaluate q.0 input ≡ ok v) × (is_true v ≡ false)

-- no rule denies and the allow rule matches
pub record IsPermitted (evaluate : Evaluate) (input : Input) : Type 0 where
  pub no_denial : All (Refrains evaluate input) deny_queries
  pub allow_rule : evaluate allow_query input ≡ ok (boolean true)

module _ (evaluate : Evaluate) (input : Input) where
  collect-nil :
      (qs : List (String × String))
      → collect_denials evaluate input qs ≡ ok []
      → All (Refrains evaluate input) qs
  unfolding collect_denials
  collect-nil [] h = tt
  collect-nil ((q, reason) ∷ qs) h =
      let (v, hv, h') = >>=-eq-ok (evaluate q input) _ h in
      let (rest, hr, h'') = >>=-eq-ok (collect_denials evaluate input qs) _ h' in
      elim (Bool-cases (is_true v)) [
        | inl t ↦ absurd (ground arith)
        | inr f ↦ ((v, hv, f), collect-nil qs (ground arith))
      ]

  collect_of_Refrains :
      (qs : List (String × String))
      → All (Refrains evaluate input) qs
      → collect_denials evaluate input qs ≡ ok []
  unfolding collect_denials
  collect_of_Refrains [] h = refl
  collect_of_Refrains ((q, reason) ∷ qs) ((v, hv, f), h) =
      rw (hv, collect_of_Refrains qs h) (ground arith)

  decide_allow-allow :
      (ds : List String) (d : PolicyDecision)
      → decide_allow evaluate input ds ≡ ok d
      → d.allow ≡ true
      → (ds ≡ []) × (evaluate allow_query input ≡ ok (boolean true))
  unfolding decide_allow
  decide_allow-allow ds d h a = ground arith

  decide_allow-denials :
      (ds : List String) (d : PolicyDecision)
      → decide_allow evaluate input ds ≡ ok d
      → (d.allow ≡ false) ↔ (d.denials ≢ [])
  unfolding decide_allow
  decide_allow-denials ds d h = ground arith

  -- A decision that is reached allows exactly if every deny query is answered and not by `True` and
  -- the allow query is answered by `True`; and it names a denial exactly if it does not allow.
  pub evaluate_decision-allow_iff :
      (d : PolicyDecision)
      → evaluate_decision evaluate input ≡ ok d
      → ((d.allow ≡ true) ↔ IsPermitted evaluate input) × ((d.allow ≡ false) ↔ (d.denials ≢ []))
  unfolding evaluate_decision decide_allow
  evaluate_decision-allow_iff d h =
      let (ds, hc, hd) = >>=-eq-ok (collect_denials evaluate input deny_queries) _ h in
      (
        (
          (λ a.
              let (e, r) = decide_allow-allow ds d hd a in
              record {
                no_denial = collect-nil deny_queries (ground (arith, hc, e));
                allow_rule = r;
              }),
          (λ p. ground (arith, collect_of_Refrains deny_queries p.no_denial, p.allow_rule, hc, hd)),
        ),
        decide_allow-denials ds d hd,
      )
