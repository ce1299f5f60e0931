-- ===== src/Proof/Mapper/Coverage.antt =====
-- vad/proof/mapper.py: a plan that is made covers its obligations.
use verified_agentic_develop.Prelude.{
  All-map, >>-eq-ok, subst, String, true, List, [], ◌∷◌, Option, none, some, is_some, ok, ◌≡◌, ◌||◌,
  ◌==◌, eq_refl, ap, arith, sym, elem, >>=-eq-ok, ok_eq, find_first, All,
}
use verified_agentic_develop.Prelude.Sort.Members.{All-sort}
use verified_agentic_develop.Prelude.Sort.{sort}
use verified_agentic_develop.Contracts.{Eip, ProofObligation, ProofKind, manual_gate}
use verified_agentic_develop.Proof.{
  ProofMapping, ProofPlan, proof_plan, get_mapping, covers_obligation, compute_eip_digest,
}
use verified_agentic_develop.Proof.Mapper.{
  command_for, place, place_all, by_id, map_proofs, ensure_proof_coverage,
}

-- the mappings or the gates name the obligation
abbrev IsCovered : List ProofMapping × List String → ProofObligation → Type 0
IsCovered (mappings, gates) o =
    (is_some (find_first (λ m. m.obligation_id == o.id) mappings) || elem o.id gates) ≡ true

gated-covers :
    (o : ProofObligation) (ms : List ProofMapping) (gs : List String)
    → IsCovered (ms, o.id ∷ gs) o
      × ((x : ProofObligation) → IsCovered (ms, gs) x → IsCovered (ms, o.id ∷ gs) x)
unfolding elem
gated-covers o ms gs = (ground (arith, eq_refl o.id), λ x h. ground arith)

mapped-covers :
    (o : ProofObligation) (command : String) (ms : List ProofMapping) (gs : List String)
    → let more : List ProofMapping × List String =
        (record { obligation_id = o.id; test_command = command } ∷ ms, gs) in
      IsCovered more o × ((x : ProofObligation) → IsCovered (ms, gs) x → IsCovered more x)
mapped-covers o command ms gs = (ground (arith, eq_refl o.id), λ x h. ground arith)

-- a placed obligation is covered, and so is what was covered before
place-covers :
    (o : ProofObligation) (kind : ProofKind) (command : Option String)
    (rest placed : List ProofMapping × List String)
    → place o kind command rest ≡ ok placed
    → IsCovered placed o × ((x : ProofObligation) → IsCovered rest x → IsCovered placed x)
unfolding place
place-covers o manual_gate command (ms, gs) placed h =
    subst (λ p. IsCovered p o × ((x : ProofObligation) → IsCovered (ms, gs) x → IsCovered p x))
      (sym (ok_eq h)) (gated-covers o ms gs)
place-covers o _ (some command) (ms, gs) placed h =
    subst (λ p. IsCovered p o × ((x : ProofObligation) → IsCovered (ms, gs) x → IsCovered p x))
      (sym (ok_eq h)) (mapped-covers o command ms gs)
place-covers o _ none (ms, gs) placed h = cc

place_all-covers :
    (os : List ProofObligation) (placed : List ProofMapping × List String)
    → place_all os ≡ ok placed
    → All (IsCovered placed) os
unfolding place_all
place_all-covers [] placed h = tt
place_all-covers (o ∷ os) placed h =
    let (rest, e, made) = >>=-eq-ok (place_all os) _ h in
    let (here, more) = place-covers o o.kind (command_for o.kind) rest placed made in
    (here, All-map os more (place_all-covers os rest e))

proof_plan-ok : (p q : ProofPlan) → proof_plan p ≡ ok q → q ≡ p
unfolding proof_plan
proof_plan-ok p q h = ground arith

-- A plan that the mapper returns covers every proof obligation of its EIP, by a mapping or as a manual
-- gate, and names the version and the digest of the EIP.
pub map_proofs-covers :
    {F : Type 0} (json_sha256 : Eip F → String) (eip : Eip F) (plan : ProofPlan)
    → map_proofs json_sha256 eip ≡ ok plan
    → All (λ o. covers_obligation plan o.id ≡ true) eip.proof_obligations
      × (plan.eip_version ≡ eip.version)
      × (plan.eip_digest ≡ compute_eip_digest json_sha256 eip)
unfolding map_proofs covers_obligation get_mapping
map_proofs-covers json_sha256 eip plan h =
    let (placed, e, made) =
      >>=-eq-ok (place_all (sort by_id eip.proof_obligations)) _
        (>>-eq-ok (ensure_proof_coverage eip) _ h) in
    let plan_eq = proof_plan-ok _ plan made in
    (
      All-sort by_id (λ o. covers_obligation plan o.id ≡ true) eip.proof_obligations
          (subst
            (λ p. All (λ o. covers_obligation p o.id ≡ true) (sort by_id eip.proof_obligations))
            (sym plan_eq) (place_all-covers (sort by_id eip.proof_obligations) placed e)),
      ap (λ p. p.eip_version) plan_eq,
      ap (λ p. p.eip_digest) plan_eq,
    )
