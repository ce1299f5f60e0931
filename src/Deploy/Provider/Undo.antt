-- ===== src/Deploy/Provider/Undo.antt =====
-- vad/deploy/providers/fake.py: rolling deployments back in reverse order restores every target.
use verified_agentic_develop.Prelude.{
  ℕ, ◌+◌, ◌≤◌, String, true, not, List, [], ◌∷◌, Option, none, some, ◌==◌, eq_refl, eq_iff,
  if◌then◌else◌, ◌≡◌, refl, ◌⊎◌, inl, inr, arith, Bool-cases, if_true, if_false, All, ok, ap, ◌∙◌,
}
use verified_agentic_develop.Deploy.{
  DeploymentPlan, production, is_production, production_ready, deployment_target,
}
use verified_agentic_develop.Deploy.Provider.{
  get, put, pop, put_back, FakeDeploymentProvider, record_of, apply, rollback, roll_back_record,
}

pub get-put {ℓ} :
    {V : Type ℓ} (d : List (String × V)) (k j : String) (v : V)
    → get (put d k v) j ≡ (if k == j then some v else get d j)
unfolding get put
get-put [] k j v = refl
get-put ((i, w) ∷ rest) k j v =
    ground (arith, eq_iff k j, eq_iff i k, eq_iff i j, get-put rest k j v)

get-pop :
    {V : Type 0} (d : List (String × V)) (k j : String)
    → get (pop d k) j ≡ (if k == j then none else get d j)
unfolding get pop
get-pop [] k j = ground arith
get-pop ((i, w) ∷ rest) k j = ground (arith, eq_iff k j, eq_iff i k, eq_iff i j, get-pop rest k j)

get-put_back :
    (d : List (String × String)) (k j : String) (o : Option String)
    → get (put_back d k o) j ≡ (if k == j then o else get d j)
unfolding put_back
get-put_back d k j none = get-pop d k j
get-put_back d k j (some v) = get-put d k j v

-- the targets are as before, and so are the deployments that were there
pub record IsUndone (show : ℕ → String) (before after : FakeDeploymentProvider) : Type 0 where
  pub targets : (j : String) → get after.targets j ≡ get before.targets j
  pub earlier :
      (n : ℕ)
      → n ≤ before.counter
      → get after.deployments (show n) ≡ get before.deployments (show n)

module _ (show : ℕ → String) {F : Type 0} where
  -- the plans are applied in order, and rolled back in reverse order
  unfoldable pub nested : List (DeploymentPlan F) → FakeDeploymentProvider → FakeDeploymentProvider
  nested [] p = p
  nested (plan ∷ plans) p =
      let (r, p1) = apply show plan p in (rollback r.deployment_id (nested plans p1)).1

  abbrev pub IsReversible : (String → String) → DeploymentPlan F → Type 0
  IsReversible lower plan =
      (plan.target.rollback.enabled ≡ true)
      ⊎ ((deployment_target lower plan.target ≡ ok plan.target)
          × (plan.target.environment ≡ production))

  reversible-enabled :
      (lower : String → String) (plan : DeploymentPlan F)
      → IsReversible lower plan
      → plan.target.rollback.enabled ≡ true
  unfolding deployment_target production_ready is_production
  reversible-enabled lower plan (inl enabled) = enabled
  reversible-enabled lower plan (inr (valid, e)) = ground arith

  -- one deployment round what is undone inside
  undo_one :
      ((m n : ℕ) → show m ≡ show n → m ≡ n)
      → (plan : DeploymentPlan F) (p q : FakeDeploymentProvider)
      → plan.target.rollback.enabled ≡ true
      → IsUndone show (apply show plan p).1 q
      → IsUndone show p (rollback (show (p.counter + 1)) q).1
  unfolding apply rollback roll_back_record
  undo_one distinct plan p q enabled inner =
      let found : get q.deployments (show (p.counter + 1)) ≡ some (record_of show plan p) =
        inner.earlier (p.counter + 1) (omega arith)
        ∙ get-put p.deployments (show (p.counter + 1)) (show (p.counter + 1))
            (record_of show plan p)
        ∙ if_true _ _ (eq_refl (show (p.counter + 1))) in
      rw found (
        rw (if_false _ _ (ap not enabled)) (record {
          targets = λ j.
              get-put_back q.targets plan.target.target_id j (get p.targets plan.target.target_id)
              ∙ elim (Bool-cases (plan.target.target_id == j)) [
                | inl e ↦ if_true _ _ e ∙ ap (get p.targets) ((eq_iff plan.target.target_id j).0 e)
                | inr e ↦
                    if_false _ _ e
                    ∙ inner.targets j
                    ∙ get-put p.targets plan.target.target_id j plan.target.artifact_digest
                    ∙ if_false _ _ e
              ];
          earlier = λ n before.
              get-put q.deployments (show (p.counter + 1)) (show n) _
              ∙ elim (Bool-cases (show (p.counter + 1) == show n)) [
                | inl e ↦
                    let same = distinct (p.counter + 1) n ((eq_iff _ _).0 e) in absurd (omega arith)
                | inr e ↦
                    if_false _ _ e
                    ∙ inner.earlier n (omega arith)
                    ∙ get-put p.deployments (show (p.counter + 1)) (show n) (record_of show plan p)
                    ∙ if_false _ _ e
              ];
        }))

  -- Where different deployments have different ids, and each plan has rollback enabled or a target that the
  -- validator accepts for production, applying the plans in order and rolling the deployments back in
  -- reverse order gives every target the artifact it had before, if any, and changes no record of an earlier
  -- deployment.
  pub nested-IsUndone :
      ((m n : ℕ) → show m ≡ show n → m ≡ n)
      → (lower : String → String) (plans : List (DeploymentPlan F)) (p : FakeDeploymentProvider)
      → All (IsReversible lower) plans
      → IsUndone show p (nested plans p)
  unfolding nested apply
  nested-IsUndone distinct lower [] p all = record { targets = λ j. refl; earlier = λ n h. refl }
  nested-IsUndone distinct lower (plan ∷ plans) p (first, all) =
      undo_one distinct plan p (nested plans (apply show plan p).1)
        (reversible-enabled lower plan first)
        (nested-IsUndone distinct lower plans (apply show plan p).1 all)
