-- ===== src/Feedback/Proposals/Steps.antt =====
-- vad/feedback/proposals.py: what one approved proposal makes of an EIP.

use verified_agentic_develop.Prelude.{
  ℕ, String, true, false, Option, none, some, List, Memᴰ, ◌≡◌, ◌≢◌, refl, sym, subst, ◌∙◌, ◌⊎◌, inl,
  inr, Result, ok, raise, Error, elem, if_true, if_false, Bool-cases, ◌==◌, eq_iff, clash,
}
use verified_agentic_develop.Contracts.{Eip, ProofObligation, ProofKind}
use verified_agentic_develop.Swarm.Tasks.{Outcome, done, failed, out_of_fuel}
use verified_agentic_develop.Feedback.Proposals.{
  ProposalType, FeedbackProposal, add_invariant, strengthen_invariant, add_proof_obligation,
  with_kind, after_attribute, chosen_id, numbered, get_or, ids_of, of_result, append_obligation,
  apply_proof_obligation, add_to_category, apply_invariant, apply_typed,
}
use verified_agentic_develop.Feedback.Proposals.Fresh.{next_obligation_id-first}
use verified_agentic_develop.Feedback.Proposals.Extends.{Extends, IsExtended}
use verified_agentic_develop.Feedback.Proposals.Distinct.{
  AreDistinct, AreDistinct-append, elem-Extends, mem-left, mem-last, add_missing-elem,
  add_missing-AreDistinct, elem-ids, ids_of-append,
}

-- where no text stood twice, none does
pub record IsTidy {F : Type 0} (before after : Eip F) : Type 0 where
  pub ids :
      AreDistinct (ids_of before.proof_obligations) → AreDistinct (ids_of after.proof_obligations)
  pub security : AreDistinct before.invariants.security → AreDistinct after.invariants.security
  pub performance :
      AreDistinct before.invariants.performance → AreDistinct after.invariants.performance
  pub functional :
      AreDistinct before.invariants.functional → AreDistinct after.invariants.functional

pub IsTidy-same : {F : Type 0} (eip : Eip F) → IsTidy eip eip
IsTidy-same eip = record {
  ids = λ h. h;
  security = λ h. h;
  performance = λ h. h;
  functional = λ h. h;
}

pub IsTidy-trans : {F : Type 0} (a b c : Eip F) → IsTidy a b → IsTidy b c → IsTidy a c
IsTidy-trans a b c h k = record {
  ids = λ d. k.ids (h.ids d);
  security = λ d. k.security (h.security d);
  performance = λ d. k.performance (h.performance d);
  functional = λ d. k.functional (h.functional d);
}

abbrev pub category_of : FeedbackProposal → String
category_of p = get_or "functional" p.payload.category

abbrev pub description_of : FeedbackProposal → String
description_of p = get_or p.reason p.payload.description

-- the EIP has the invariant in its category, where there is such a list
pub HasInvariant : {F : Type 0} → FeedbackProposal → Eip F → Type 0
HasInvariant p after =
    (category_of p ≡ "security" → elem (description_of p) after.invariants.security ≡ true)
    × (category_of p ≡ "performance" → elem (description_of p) after.invariants.performance ≡ true)
    × (category_of p ≡ "functional" → elem (description_of p) after.invariants.functional ≡ true)

HasInvariant-later :
    {F : Type 0} (p : FeedbackProposal) (middle after : Eip F)
    → IsExtended middle after
    → HasInvariant p middle
    → HasInvariant p after
unfolding HasInvariant
HasInvariant-later p middle after ext (s, q, f) = (
  λ c. elem-Extends (description_of p) _ _ ext.security (s c),
  λ c. elem-Extends (description_of p) _ _ ext.performance (q c),
  λ c. elem-Extends (description_of p) _ _ ext.functional (f c),
)

module _ (show : ℕ → String)
    (distinct : (m n : ℕ) → numbered show m ≡ numbered show n → m ≡ n) where
  -- the id that is given, where one is, and not empty, and otherwise a free one
  chosen_id-given :
      (given : Option String) (ids : List String)
      → (id : String) × (chosen_id show given ids ≡ done id)
        × (((t : String) × (given ≡ some t) × (t ≢ "") × (id ≡ t))
            ⊎ (((t : String) → given ≡ some t → t ≡ "") × (elem id ids ≡ false)))
  unfolding chosen_id
  chosen_id-given none ids =
      let (n, ends, first) = next_obligation_id-first show distinct ids in
      (numbered show n, ends, inr ((λ t e. cc), first.free))
  chosen_id-given (some x) ids =
      let (n, ends, first) = next_obligation_id-first show distinct ids in
      elim (Bool-cases (x == "")) [
        | inl e ↦ (
          numbered show n,
          rw e ends,
          inr ((λ t same. (let g : t ≡ x = cc in g) ∙ (eq_iff x "").0 e), first.free),
        )
        | inr e ↦ (x, rw e refl, inl (x, refl, (λ empty. clash ((eq_iff x "").1 empty) e), refl))
      ]

apart : (c x y : String) → c ≡ x → c ≡ y → (x == y) ≡ false → ⊥
apart c x y e f differ = clash ((eq_iff x y).1 (sym e ∙ f)) differ

module _ (read_kind : String → Result ProofKind)
    (other_attribute : String → String → Result (Unit {0})) where
  -- the EIP has an obligation of the id, where one is given that is not empty, and otherwise one with the
  -- proposal's description and kind
  pub HasObligation : {F : Type 0} → FeedbackProposal → Eip F → Type 0
  HasObligation p after =
      (o : ProofObligation) × Memᴰ o after.proof_obligations
      × (((t : String) × (p.payload.id ≡ some t) × (t ≢ "") × (o.id ≡ t))
          ⊎ (((t : String) → p.payload.id ≡ some t → t ≡ "")
              × (o.description ≡ description_of p)
              × (read_kind (get_or "unit" p.payload.kind) ≡ ok o.kind)))

  unfoldable pub IsHonoured : {F : Type 0} → ProposalType → FeedbackProposal → Eip F → Type 0
  IsHonoured add_invariant p after = HasInvariant p after
  IsHonoured strengthen_invariant p after = HasInvariant p after
  IsHonoured add_proof_obligation p after = HasObligation p after
  IsHonoured _ p after = Unit

  HasObligation-later :
      {F : Type 0} (p : FeedbackProposal) (middle after : Eip F)
      → IsExtended middle after
      → HasObligation p middle
      → HasObligation p after
  unfolding HasObligation Extends
  HasObligation-later p middle after ext (o, m, given) =
      let (added, e) = ext.obligations in
      (o, subst (λ l. Memᴰ o l) (sym e) (mem-left o middle.proof_obligations added m), given)

  pub IsHonoured-later :
      {F : Type 0} (t : ProposalType) (p : FeedbackProposal) (middle after : Eip F)
      → IsExtended middle after
      → IsHonoured t p middle
      → IsHonoured t p after
  unfolding IsHonoured
  IsHonoured-later add_invariant p middle after ext h = HasInvariant-later p middle after ext h
  IsHonoured-later strengthen_invariant p middle after ext h =
      HasInvariant-later p middle after ext h
  IsHonoured-later add_proof_obligation p middle after ext h =
      HasObligation-later p middle after ext h
  IsHonoured-later _ p middle after ext h = tt

  -- why the change of a proposal raises
  pub Refuses : ProposalType → FeedbackProposal → Error → Type 0
  Refuses add_invariant p problem =
      (category_of p ≢ "security")
      × (category_of p ≢ "performance")
      × (category_of p ≢ "functional")
      × (other_attribute (category_of p) (description_of p) ≡ raise problem)
  Refuses strengthen_invariant p problem =
      (category_of p ≢ "security")
      × (category_of p ≢ "performance")
      × (category_of p ≢ "functional")
      × (other_attribute (category_of p) (description_of p) ≡ raise problem)
  Refuses add_proof_obligation p problem = read_kind (get_or "unit" p.payload.kind) ≡ raise problem
  Refuses _ p problem = ⊥

  module _ {F : Type 0} where
    unfoldable pub Stepped : ProposalType → FeedbackProposal → Eip F → Outcome (Eip F) → Type 0
    Stepped t p before (done after) = IsTidy before after × IsHonoured t p after
    Stepped t p before (failed problem) = Refuses t p problem
    Stepped t p before out_of_fuel = ⊥

    with_kind-Stepped :
        (kind : Result ProofKind) (id : String) (p : FeedbackProposal) (eip : Eip F)
        → read_kind (get_or "unit" p.payload.kind) ≡ kind
        → elem id (ids_of eip.proof_obligations) ≡ false
        → (((t : String) × (p.payload.id ≡ some t) × (t ≢ "") × (id ≡ t))
            ⊎ (((t : String) → p.payload.id ≡ some t → t ≡ "")
                × (elem id (ids_of eip.proof_obligations) ≡ false)))
        → Stepped add_proof_obligation p eip (of_result (with_kind kind id p eip))
    unfolding with_kind of_result Stepped Refuses IsHonoured HasObligation
    with_kind-Stepped (raise problem) id p eip e absent given = e
    with_kind-Stepped (ok kind) id p eip e absent given = (
      record {
        ids = λ h.
            subst AreDistinct (sym (ids_of-append eip.proof_obligations _))
              (AreDistinct-append id (ids_of eip.proof_obligations) absent h);
        security = λ h. h;
        performance = λ h. h;
        functional = λ h. h;
      },
      (
        _,
        mem-last _ eip.proof_obligations,
        elim given [ inl is ↦ inl is | inr (empty, free) ↦ inr (empty, refl, e) ],
      ),
    )

    after_attribute-Stepped :
        (p : FeedbackProposal) (found : Result (Unit {0})) (eip : Eip F)
        → (category_of p ≢ "security")
        → (category_of p ≢ "performance")
        → (category_of p ≢ "functional")
        → other_attribute (category_of p) (description_of p) ≡ found
        → Stepped add_invariant p eip (of_result (after_attribute found eip))
    unfolding after_attribute of_result Stepped Refuses IsHonoured HasInvariant
    after_attribute-Stepped p (raise problem) eip s q f e = (s, q, f, e)
    after_attribute-Stepped p (ok _) eip s q f e =
        (IsTidy-same eip, (λ c. absurd (s c), λ c. absurd (q c), λ c. absurd (f c)))

    Stepped-strengthen :
        (p : FeedbackProposal) (eip : Eip F) (out : Outcome (Eip F))
        → Stepped add_invariant p eip out
        → Stepped strengthen_invariant p eip out
    unfolding Stepped IsHonoured Refuses
    Stepped-strengthen p eip (done after) h = h
    Stepped-strengthen p eip (failed problem) h = h
    Stepped-strengthen p eip out_of_fuel h = h

    module _ (show : ℕ → String)
        (distinct : (m n : ℕ) → numbered show m ≡ numbered show n → m ≡ n) where
      apply_invariant-Stepped :
          (p : FeedbackProposal) (eip : Eip F)
          → Stepped add_invariant p eip (apply_invariant show read_kind other_attribute p eip)
      unfolding apply_invariant add_to_category of_result Stepped IsHonoured HasInvariant
      apply_invariant-Stepped p eip =
          let i = eip.invariants in
          let c = category_of p in
          let d = description_of p in
          elim (Bool-cases (c == "security")) [
            | inl e ↦
                let same = (eq_iff c "security").0 e in
                rw (if_true {b = c == "security"} _ _ e) (
                  record {
                    ids = λ h. h;
                    security = add_missing-AreDistinct d i.security;
                    performance = λ h. h;
                    functional = λ h. h;
                  },
                  (
                    λ k. add_missing-elem d i.security,
                    λ k. absurd (apart c _ _ same k refl),
                    λ k. absurd (apart c _ _ same k refl),
                  ),
                )
            | inr s ↦
                rw (if_false {b = c == "security"} _ _ s) (elim (Bool-cases (c == "performance")) [
                  | inl e ↦
                      let same = (eq_iff c "performance").0 e in
                      rw (if_true {b = c == "performance"} _ _ e) (
                        record {
                          ids = λ h. h;
                          security = λ h. h;
                          performance = add_missing-AreDistinct d i.performance;
                          functional = λ h. h;
                        },
                        (
                          λ k. absurd (apart c _ _ same k refl),
                          λ k. add_missing-elem d i.performance,
                          λ k. absurd (apart c _ _ same k refl),
                        ),
                      )
                  | inr q ↦
                      rw (if_false {b = c == "performance"} _ _ q)
                        (elim (Bool-cases (c == "functional")) [
                          | inl e ↦
                              let same = (eq_iff c "functional").0 e in
                              rw (if_true {b = c == "functional"} _ _ e) (
                                record {
                                  ids = λ h. h;
                                  security = λ h. h;
                                  performance = λ h. h;
                                  functional = add_missing-AreDistinct d i.functional;
                                },
                                (
                                  λ k. absurd (apart c _ _ same k refl),
                                  λ k. absurd (apart c _ _ same k refl),
                                  λ k. add_missing-elem d i.functional,
                                ),
                              )
                          | inr f ↦ rw (if_false {b = c == "functional"} _ _ f) (
                              after_attribute-Stepped p (other_attribute c d) eip
                                (λ k. clash ((eq_iff c "security").1 k) s)
                                (λ k. clash ((eq_iff c "performance").1 k) q)
                                (λ k. clash ((eq_iff c "functional").1 k) f) refl)
                        ])
                ])
          ]

      apply_proof_obligation-Stepped :
          (p : FeedbackProposal) (eip : Eip F)
          → Stepped add_proof_obligation p eip
              (apply_proof_obligation show read_kind other_attribute p eip)
      unfolding apply_proof_obligation append_obligation Stepped IsHonoured HasObligation
      apply_proof_obligation-Stepped p eip =
          let ids = ids_of eip.proof_obligations in
          let (id, e, given) = chosen_id-given show distinct p.payload.id ids in
          rw e (elim (Bool-cases (elem id ids)) [
            | inl k ↦
                let (o, m, same) = elem-ids id eip.proof_obligations k in
                rw (if_true {b = elem id ids} _ _ k) (
                  IsTidy-same eip,
                  (
                    o,
                    m,
                    elim given [
                      | inl (t, is, full, here) ↦ inl (t, is, full, same ∙ here)
                      | inr (empty, free) ↦ absurd (clash k free)
                    ],
                  ),
                )
            | inr k ↦
                rw (if_false {b = elem id ids} _ _ k) (
                  with_kind-Stepped (read_kind (get_or "unit" p.payload.kind)) id p eip refl k
                    given)
          ])

      pub apply_typed-Stepped :
          (t : ProposalType) (p : FeedbackProposal) (eip : Eip F)
          → Stepped t p eip (apply_typed show read_kind other_attribute t p eip)
      unfolding apply_typed Stepped IsHonoured
      apply_typed-Stepped add_invariant p eip = apply_invariant-Stepped p eip
      apply_typed-Stepped strengthen_invariant p eip =
          Stepped-strengthen p eip _ (apply_invariant-Stepped p eip)
      apply_typed-Stepped add_proof_obligation p eip = apply_proof_obligation-Stepped p eip
      apply_typed-Stepped _ p eip = (IsTidy-same eip, tt)
