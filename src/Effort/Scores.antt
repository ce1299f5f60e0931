-- ===== src/Effort/Scores.antt =====
-- What `score_effort` of vad/effort/scoring.py returns.
use verified_agentic_develop.Prelude.{
  clash, sym, none, raise, value_error, joined, ◌≢◌, [], ◌∷◌, ◌∙◌, eq_iff, ◌⊎◌, ℕ, ◌+◌, ◌-◌, ◌≤◌,
  ◌<◌, ◌≡◌, refl, ◌↔◌, true, String, Option, some, List, ok, min, arith, ◌==◌, eq_refl, Bool-cases,
  ltb, inl, inr,
}
use verified_agentic_develop.Effort.{
  bugfix, feature, refactor, greenfield, test, migration, score_typed, effort_value,
  read_effort_type, false, EffortType, MeesPenalties, EffortScore, total, policy_for_score,
  effort_score, score_effort, resolved_penalties,
}

policy-eq-block : (n : ℕ) → (policy_for_score n == "block") ≡ ltb n 50
unfolding policy_for_score
policy-eq-block n = elim (Bool-cases (ltb n 50)) [
  | inl low ↦ rw low refl
  | inr high ↦ elim (Bool-cases (ltb n 70)) [
    | inl mid ↦ rw (high, mid) refl
    | inr top ↦ rw (high, top) refl
  ]
]

-- a record that agrees with the policy passes the validator
effort_score-ok :
    (s : EffortScore)
    → s.score ≤ 100
    → s.policy ≡ policy_for_score s.score
    → s.requires_human ≡ ltb s.score 50
    → effort_score s ≡ ok s
unfolding effort_score
effort_score-ok s bound agrees human =
    ground (arith, policy-eq-block s.score, eq_refl (policy_for_score s.score))

-- the seven penalties
pub sum_of : Option MeesPenalties → ℕ
sum_of none = 0
sum_of (some p) =
    p.risk + p.novelty + p.dependency + p.spread + p.diff + p.maintainability + p.complexity

total-eq : (p : Option MeesPenalties) → total (resolved_penalties p) ≡ sum_of p
unfolding total sum_of
total-eq none = refl
total-eq (some p) = omega arith

-- What a score says: its type, the penalties and their sum, cut off at 100, and what follows from it.
pub record IsScored (t : EffortType) (p : Option MeesPenalties) (s : EffortScore) : Type 0 where
  pub effort_type : s.effort_type ≡ t
  pub penalties : s.penalties ≡ resolved_penalties p
  pub score : s.score + min (sum_of p) 100 ≡ 100
  pub block_iff : (s.policy ≡ "block") ↔ (s.score < 50)
  pub pass_iff : (s.policy ≡ "pass") ↔ (70 ≤ s.score)
  pub warns : (s.policy ≡ "block") ⊎ ((s.policy ≡ "warn") ⊎ (s.policy ≡ "pass"))
  pub human_iff : (s.requires_human ≡ true) ↔ (s.score < 50)

-- the validator accepts a score of 50 or more only with a policy that does not block
pub policy_of_constructed :
    (s : EffortScore)
    → effort_score s ≡ ok s
    → ltb s.score 50 ≡ false
    → (s.policy == "block") ≡ false
unfolding effort_score
policy_of_constructed s h high = elim (Bool-cases (s.policy == policy_for_score s.score)) [
  | inl same ↦
      let e = (eq_iff s.policy (policy_for_score s.score)).0 same in
      rw e (policy-eq-block s.score ∙ high)
  | inr other ↦ absurd (ground arith)
]

policy-block_iff : (n : ℕ) → (policy_for_score n ≡ "block") ↔ (n < 50)
unfolding policy_for_score
policy-block_iff n = elim (Bool-cases (ltb n 50)) [
  | inl low ↦ rw low (λ h. ground arith, λ h. refl)
  | inr high ↦ elim (Bool-cases (ltb n 70)) [
    | inl mid ↦ rw (high, mid) (λ h. cc, λ h. ground arith)
    | inr top ↦ rw (high, top) (λ h. cc, λ h. ground arith)
  ]
]

warns-not-pass : ¬ (◌≡◌ {A = String} "warn" "pass")
warns-not-pass h = clash ((eq_iff "warn" "pass").1 h) refl

blocks-not-pass : ¬ (◌≡◌ {A = String} "block" "pass")
blocks-not-pass h = clash ((eq_iff "block" "pass").1 h) refl

policy-pass_iff : (n : ℕ) → (policy_for_score n ≡ "pass") ↔ (70 ≤ n)
unfolding policy_for_score
policy-pass_iff n = elim (Bool-cases (ltb n 50)) [
  | inl low ↦ rw low (λ h. absurd (blocks-not-pass h), λ h. ground arith)
  | inr high ↦ elim (Bool-cases (ltb n 70)) [
    | inl mid ↦ rw (high, mid) (λ h. absurd (warns-not-pass h), λ h. ground arith)
    | inr top ↦ rw (high, top) (λ h. ground arith, λ h. refl)
  ]
]

policy-cases :
    (n : ℕ)
    → (policy_for_score n ≡ "block")
      ⊎ ((policy_for_score n ≡ "warn") ⊎ (policy_for_score n ≡ "pass"))
unfolding policy_for_score
policy-cases n = elim (Bool-cases (ltb n 50)) [
  | inl low ↦ rw low (inl refl)
  | inr high ↦ elim (Bool-cases (ltb n 70)) [
    | inl mid ↦ rw (high, mid) (inr (inl refl))
    | inr top ↦ rw (high, top) (inr (inr refl))
  ]
]

score_typed-ok :
    (t : EffortType) (p : Option MeesPenalties) (ws : List String)
    → (s : EffortScore) × (score_typed t p ws ≡ ok s) × IsScored t p s
unfolding score_typed
score_typed-ok t p ws =
    let n = 100 - total (resolved_penalties p) in
    (
      record {
        effort_type = t;
        score = n;
        policy = policy_for_score n;
        penalties = resolved_penalties p;
        warnings = _;
        requires_human = policy_for_score n == "block";
      },
      effort_score-ok _ (omega arith) refl (policy-eq-block n),
      record {
        effort_type = refl;
        penalties = refl;
        score = omega (arith, total-eq p);
        block_iff = policy-block_iff n;
        pass_iff = policy-pass_iff n;
        warns = policy-cases n;
        human_iff = ground (arith, policy-eq-block n);
      },
    )

abbrev Reads : String → Type 0
Reads text =
    ((t : EffortType) × (effort_value t ≡ text) × (read_effort_type text ≡ ok t))
    ⊎ (((t : EffortType) → effort_value t ≢ text)
        × (read_effort_type text
            ≡ raise (value_error (joined ("'" ∷ text ∷ "' is not a valid EffortType" ∷ [])))))

no_value :
    (text : String)
    → (text == "bugfix") ≡ false
    → (text == "feature") ≡ false
    → (text == "refactor") ≡ false
    → (text == "greenfield") ≡ false
    → (text == "test") ≡ false
    → (text == "migration") ≡ false
    → (t : EffortType) → effort_value t ≢ text
unfolding effort_value
no_value text a b c d e f bugfix same = clash ((eq_iff text "bugfix").1 (sym same)) a
no_value text a b c d e f feature same = clash ((eq_iff text "feature").1 (sym same)) b
no_value text a b c d e f refactor same = clash ((eq_iff text "refactor").1 (sym same)) c
no_value text a b c d e f greenfield same = clash ((eq_iff text "greenfield").1 (sym same)) d
no_value text a b c d e f test same = clash ((eq_iff text "test").1 (sym same)) e
no_value text a b c d e f migration same = clash ((eq_iff text "migration").1 (sym same)) f

read_effort_type-cases : (text : String) → Reads text
unfolding read_effort_type effort_value
read_effort_type-cases text = elim (Bool-cases (text == "bugfix")) [
  | inl h ↦ inl (bugfix, sym ((eq_iff text "bugfix").0 h), rw h refl)
  | inr a ↦ elim (Bool-cases (text == "feature")) [
    | inl h ↦ inl (feature, sym ((eq_iff text "feature").0 h), rw (a, h) refl)
    | inr b ↦ elim (Bool-cases (text == "refactor")) [
      | inl h ↦ inl (refactor, sym ((eq_iff text "refactor").0 h), rw (a, b, h) refl)
      | inr c ↦ elim (Bool-cases (text == "greenfield")) [
        | inl h ↦ inl (greenfield, sym ((eq_iff text "greenfield").0 h), rw (a, b, c, h) refl)
        | inr d ↦ elim (Bool-cases (text == "test")) [
          | inl h ↦ inl (test, sym ((eq_iff text "test").0 h), rw (a, b, c, d, h) refl)
          | inr e ↦ elim (Bool-cases (text == "migration")) [
            | inl h ↦
                inl (migration, sym ((eq_iff text "migration").0 h), rw (a, b, c, d, e, h) refl)
            | inr f ↦ inr (no_value text a b c d e f, rw (a, b, c, d, e, f) refl)
          ]
        ]
      ]
    ]
  ]
]

-- Scoring a text that is an effort type's value succeeds: the score and the sum of the penalties, cut
-- off at 100, add up to 100; the policy blocks exactly below 50, passes exactly from 70 on and warns
-- between; and a human is required exactly below 50. Any other text raises a ValueError.
pub score_effort-outcome :
    (text : String) (p : Option MeesPenalties) (ws : List String)
    → ((t : EffortType) × (effort_value t ≡ text)
        × (s : EffortScore) × (score_effort text p ws ≡ ok s)
        × IsScored t p s)
      ⊎ (((t : EffortType) → effort_value t ≢ text)
          × (score_effort text p ws
              ≡ raise (value_error (joined ("'" ∷ text ∷ "' is not a valid EffortType" ∷ [])))))
unfolding score_effort
score_effort-outcome text p ws = elim (read_effort_type-cases text) [
  | inl (t, same, reads) ↦
      let (s, scored, is) = score_typed-ok t p ws in inl (t, same, s, rw reads scored, is)
  | inr (other, reads) ↦ inr (other, rw reads refl)
]
