-- ===== src/Feedback/Proposals/Extends.antt =====
-- What `apply_approved_proposals` of vad/feedback/proposals.py may do to an EIP.
use mathlib.Core.List.{append_assoc, append-nil}
use verified_agentic_develop.Prelude.{
  ℕ, String, Bool, true, false, Option, none, some, List, [], ◌∷◌, ◌++◌, ◌≡◌, refl, sym, subst,
  Result, raise, ok, elem, if◌then◌else◌, if_true, if_false, Bool-cases, inl, inr, ◌==◌,
}
use verified_agentic_develop.Contracts.{Eip, ProofKind}
use verified_agentic_develop.Swarm.Tasks.{Outcome, done, failed, out_of_fuel, ◌>>=◌}
use verified_agentic_develop.Feedback.Proposals.{
  ProposalType, FeedbackProposal, with_kind, after_attribute, add_invariant, strengthen_invariant,
  ids_of, append_obligation, apply_proof_obligation, add_to_category, apply_invariant, apply_typed,
  apply_all, add_proof_obligation, add_missing, chosen_id, numbered, get_or, ids_of, of_result,
  append_obligation, apply_proof_obligation, add_to_category, apply_invariant, apply_typed,
  apply_all,
}
use verified_agentic_develop.Feedback.Proposals.Fresh.{next_obligation_id-first}

unfoldable pub Extends : {A : Type 0} → List A → List A → Type 0
Extends {A = A} before after = (added : List A) × (after ≡ before ++ added)

Extends-same : {A : Type 0} (xs : List A) → Extends xs xs
unfolding Extends
Extends-same xs = ([], sym (append-nil xs))

Extends-trans : {A : Type 0} (xs ys zs : List A) → Extends xs ys → Extends ys zs → Extends xs zs
unfolding Extends
Extends-trans xs ys zs (u, e) (v, f) = (u ++ v, rw (f, e) (append_assoc xs u v))

add_missing-Extends : (d : String) (xs : List String) → Extends xs (add_missing d xs)
unfolding add_missing Extends
add_missing-Extends d xs = elim (Bool-cases (elem d xs)) [
  | inl e ↦ rw e (Extends-same xs)
  | inr e ↦ rw e (d ∷ [], refl)
]

-- An EIP that has grown: the obligations and the invariants of the first one still stand in front, and
-- all the rest is the same.
pub record IsExtended {F : Type 0} (before after : Eip F) : Type 0 where
  pub obligations : Extends before.proof_obligations after.proof_obligations
  pub security : Extends before.invariants.security after.invariants.security
  pub performance : Extends before.invariants.performance after.invariants.performance
  pub functional : Extends before.invariants.functional after.invariants.functional
  pub rest :
      after
      ≡ record before { proof_obligations = after.proof_obligations; invariants = after.invariants }

IsExtended-same : {F : Type 0} (eip : Eip F) → IsExtended eip eip
IsExtended-same eip = record {
  obligations = Extends-same eip.proof_obligations;
  security = Extends-same eip.invariants.security;
  performance = Extends-same eip.invariants.performance;
  functional = Extends-same eip.invariants.functional;
  rest = refl;
}

IsExtended-trans : {F : Type 0} (a b c : Eip F) → IsExtended a b → IsExtended b c → IsExtended a c
IsExtended-trans a b c h k = record {
  obligations = Extends-trans _ _ _ h.obligations k.obligations;
  security = Extends-trans _ _ _ h.security k.security;
  performance = Extends-trans _ _ _ h.performance k.performance;
  functional = Extends-trans _ _ _ h.functional k.functional;
  rest =
      subst
        (λ x. c ≡ record x { proof_obligations = c.proof_obligations; invariants = c.invariants })
        h.rest k.rest;
}

-- an end of the code: an EIP that has grown, or an exception
unfoldable pub IsGrown : {F : Type 0} → Eip F → Outcome (Eip F) → Type 0
IsGrown before (done after) = IsExtended before after
IsGrown before (failed problem) = Unit
IsGrown before out_of_fuel = ⊥

module _ {F : Type 0} where
  >>=-IsGrown :
      (before : Eip F) (first : Outcome (Eip F)) (next : Eip F → Outcome (Eip F))
      → IsGrown before first
      → ((middle : Eip F) → IsExtended before middle → IsGrown middle (next middle))
      → IsGrown before (first >>= next)
  unfolding IsGrown
  >>=-IsGrown before (done middle) next h f = after_middle (next middle) (f middle h)
    where
      after_middle : (last : Outcome (Eip F)) → IsGrown middle last → IsGrown before last
      after_middle (done after) k = IsExtended-trans before middle after h k
      after_middle (failed problem) k = tt
      after_middle out_of_fuel k = k
  >>=-IsGrown before (failed problem) next h f = tt
  >>=-IsGrown before out_of_fuel next h f = h

module _ (show : ℕ → String)
    (distinct : (m n : ℕ) → numbered show m ≡ numbered show n → m ≡ n) where
  chosen_id-done :
      (given : Option String) (ids : List String)
      → (id : String) × (chosen_id show given ids ≡ done id)
  unfolding chosen_id
  chosen_id-done none ids =
      let (n, ends, first) = next_obligation_id-first show distinct ids in (numbered show n, ends)
  chosen_id-done (some t) ids =
      let (n, ends, first) = next_obligation_id-first show distinct ids in
      elim (Bool-cases (t == "")) [ inl e ↦ (numbered show n, rw e ends) | inr e ↦ (t, rw e refl) ]

with_kind-IsGrown :
    {F : Type 0} (kind : Result ProofKind) (id : String) (p : FeedbackProposal) (eip : Eip F)
    → IsGrown eip (of_result (with_kind kind id p eip))
unfolding with_kind of_result IsGrown Extends
with_kind-IsGrown (raise problem) id p eip = tt
with_kind-IsGrown (ok kind) id p eip = record {
  obligations = (_ ∷ [], refl);
  security = Extends-same eip.invariants.security;
  performance = Extends-same eip.invariants.performance;
  functional = Extends-same eip.invariants.functional;
  rest = refl;
}

after_attribute-IsGrown :
    {F : Type 0} (found : Result (Unit {0})) (eip : Eip F)
    → IsGrown eip (of_result (after_attribute found eip))
unfolding after_attribute of_result IsGrown
after_attribute-IsGrown (raise problem) eip = tt
after_attribute-IsGrown (ok _) eip = IsExtended-same eip

if-IsGrown :
    {F : Type 0} (eip : Eip F) (b : Bool) (x y : Result (Eip F))
    → IsGrown eip (of_result x)
    → IsGrown eip (of_result y)
    → IsGrown eip (of_result (if b then x else y))
if-IsGrown eip true x y h k = h
if-IsGrown eip false x y h k = k

one-IsGrown :
    {F : Type 0} (eip : Eip F) (b : Bool) (x : Outcome (Eip F))
    → IsGrown eip x
    → IsGrown eip (if b then x else done eip)
unfolding IsGrown
one-IsGrown eip true x h = h
one-IsGrown eip false x h = IsExtended-same eip

module _ (show : ℕ → String) (distinct : (m n : ℕ) → numbered show m ≡ numbered show n → m ≡ n)
    (read_kind : String → Result ProofKind) (other_attribute : String → String → Result (Unit {0}))
    {F : Type 0} where
  add_to_category-IsGrown :
      (category d : String) (eip : Eip F)
      → IsGrown eip (of_result (add_to_category show read_kind other_attribute category d eip))
  unfolding add_to_category of_result IsGrown
  add_to_category-IsGrown category d eip =
      let i = eip.invariants in
      let same = IsExtended-same eip in
      if-IsGrown eip (category == "security") _ _
        (record {
          obligations = same.obligations;
          security = add_missing-Extends d i.security;
          performance = same.performance;
          functional = same.functional;
          rest = refl;
        })
        (if-IsGrown eip (category == "performance") _ _
          (record {
            obligations = same.obligations;
            security = same.security;
            performance = add_missing-Extends d i.performance;
            functional = same.functional;
            rest = refl;
          })
          (if-IsGrown eip (category == "functional") _ _
            (record {
              obligations = same.obligations;
              security = same.security;
              performance = same.performance;
              functional = add_missing-Extends d i.functional;
              rest = refl;
            })
            (after_attribute-IsGrown (other_attribute category d) eip)))

  apply_proof_obligation-IsGrown :
      (p : FeedbackProposal) (eip : Eip F)
      → IsGrown eip (apply_proof_obligation show read_kind other_attribute p eip)
  unfolding apply_proof_obligation append_obligation IsGrown
  apply_proof_obligation-IsGrown p eip =
      let ids = ids_of eip.proof_obligations in
      let (id, e) = chosen_id-done show distinct p.payload.id ids in
      rw e (elim (Bool-cases (elem id ids)) [
        | inl k ↦ rw (if_true {b = elem id ids} _ _ k) (IsExtended-same eip)
        | inr k ↦
            rw (if_false {b = elem id ids} _ _ k)
              (with_kind-IsGrown (read_kind (get_or "unit" p.payload.kind)) id p eip)
      ])

  apply_invariant-IsGrown :
      (p : FeedbackProposal) (eip : Eip F)
      → IsGrown eip (apply_invariant show read_kind other_attribute p eip)
  unfolding apply_invariant
  apply_invariant-IsGrown p eip =
      add_to_category-IsGrown (get_or "functional" p.payload.category)
        (get_or p.reason p.payload.description) eip

  apply_typed-IsGrown :
      (t : ProposalType) (p : FeedbackProposal) (eip : Eip F)
      → IsGrown eip (apply_typed show read_kind other_attribute t p eip)
  unfolding apply_typed IsGrown
  apply_typed-IsGrown add_invariant p eip = apply_invariant-IsGrown p eip
  apply_typed-IsGrown strengthen_invariant p eip = apply_invariant-IsGrown p eip
  apply_typed-IsGrown add_proof_obligation p eip = apply_proof_obligation-IsGrown p eip
  apply_typed-IsGrown _ p eip = IsExtended-same eip

  pub apply_all-IsGrown :
      (ps : List FeedbackProposal) (eip : Eip F)
      → IsGrown eip (apply_all show read_kind other_attribute ps eip)
  unfolding apply_all IsGrown
  apply_all-IsGrown [] eip = IsExtended-same eip
  apply_all-IsGrown (p ∷ ps) eip =
      >>=-IsGrown eip _ _ (one-IsGrown eip p.approved _ (apply_typed-IsGrown p.proposal_type p eip))
        (λ middle h. apply_all-IsGrown ps middle)
