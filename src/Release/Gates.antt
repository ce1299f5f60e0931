-- ===== src/Release/Gates.antt =====
-- When vad/release/gates.py lets a release through.
use verified_agentic_develop.Prelude.{
  ◌>>◌, String, Bool, true, false, not, List, [], ◌∷◌, Option, none, some, Result, ok, ◌≡◌, refl,
  ◌↔◌, Bool-cases, if_false, inl, inr, All, ap, arith,
}
use verified_agentic_develop.Prelude.Float.{FloatOps}
use verified_agentic_develop.Release.{
  RolloutGate, ReleaseManager, metric, is_enabled, check_value, check_gates, evaluate_release,
}

module _ {F : Type 0} ⦃fl : FloatOps F⦄ where
  -- a value, if there is one, is not below the gate's threshold
  abbrev pub Healthy : RolloutGate F → Option F → Type 0
  Healthy gate none = Unit
  Healthy gate (some val) = fl.flt val gate.minimum_health_threshold ≡ false

  abbrev pub IsHealthy : List (String × F) → RolloutGate F → Type 0
  IsHealthy metrics gate = Healthy gate (metric metrics gate.metric_name)

  value-cases :
      (gate : RolloutGate F) (o : Option F) (rest : Result Bool) (Rest : Type 0)
      → ((rest ≡ ok true) ↔ Rest)
      → ((check_value gate o >> rest) ≡ ok true) ↔ (Healthy gate o × Rest)
  unfolding check_value
  value-cases gate none rest Rest iff = ((λ h. (tt, iff.0 h)), λ h. iff.1 h.1)
  value-cases gate (some val) rest Rest iff =
      elim (Bool-cases (fl.flt val gate.minimum_health_threshold)) [
        | inl low ↦ ((λ h. absurd (ground (arith, low, h))), λ h. absurd (ground (arith, low, h.0)))
        | inr high ↦ rw (if_false _ _ high) ((λ h. (high, iff.0 h)), λ h. iff.1 h.1)
      ]

  check_gates-ok_iff :
      (gates : List (RolloutGate F)) (metrics : List (String × F))
      → (check_gates gates metrics ≡ ok true) ↔ All (IsHealthy metrics) gates
  unfolding check_gates
  check_gates-ok_iff [] metrics = ((λ h. tt), λ h. refl)
  check_gates-ok_iff (gate ∷ gates) metrics =
      value-cases gate (metric metrics gate.metric_name) (check_gates gates metrics) _
        (check_gates-ok_iff gates metrics)

  -- A release is let through exactly if the candidate has telemetry, its flag is on, and no metric that
  -- a gate asks for is below the gate's threshold; a metric that is missing stops nothing.
  pub evaluate_release-ok_iff :
      (m : ReleaseManager F) (name : String) (metrics : List (String × F)) (has_telemetry : Bool)
      → (evaluate_release m name metrics has_telemetry ≡ ok true) ↔ (
          (has_telemetry ≡ true)
          × (is_enabled m.flags name false ≡ true)
          × All (IsHealthy metrics) m.gates)
  unfolding evaluate_release
  evaluate_release-ok_iff m name metrics has_telemetry =
      let iff = check_gates-ok_iff m.gates metrics in
      elim (Bool-cases has_telemetry) [
        | inr lost ↦
            ((λ h. absurd (ground (arith, lost, h))), λ h. absurd (ground (arith, lost, h.0)))
        | inl held ↦ elim (Bool-cases (is_enabled m.flags name false)) [
          | inr off ↦
              ((λ h. absurd (ground (arith, held, off, h))), λ h. absurd (ground (arith, off, h.1)))
          | inl on ↦
              rw (if_false _ _ (ap not held), if_false _ _ (ap not on))
                ((λ h. (held, on, iff.0 h)), λ h. iff.1 h.2)
        ]
      ]
