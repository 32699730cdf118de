-- ===== src/Finalizer/Validity.antt =====
-- When a timeline's results are valid, partial or invalid.
use aowis_server_epanet.Base.{
  ◌≡◌, refl, ◌≢◌, ◌↔◌, ◌⊎◌, inl, inr, true, false, List, [], ◌∷◌, arith, Bool-cases, same_iff, All,
  is_empty,
}
use aowis_server_epanet.Model.Enums.{
  DiagnosticSeverity, DiagnosticSeverity-discrete, StatusStage, WaterQualityAnalysisType,
  WaterQualityAnalysisType-discrete,
}
use aowis_server_epanet.Model.Status.{Diagnostic}
use aowis_server_epanet.Model.Timelines.{
  HydraulicValidity, QualityValidity, HydraulicTimeline, QualityTimeline,
}
use aowis_server_epanet.Finalizer.{
  concluding, diagnostic_invalidates_results, has_invalidating_diagnostic,
  finalize_epanet_hydraulic_result_validity, finalize_epanet_quality_result_validity,
}

-- The diagnostics that spoil results: severity Error or Fatal, raised before the results were
-- complete.
abbrev Spoils : Diagnostic → Type 0
Spoils d =
    ((d.severity ≡ DiagnosticSeverity.error) ⊎ (d.severity ≡ DiagnosticSeverity.fatal))
    × (d.stage ≢ StatusStage.close_hydraulics)
    × (d.stage ≢ StatusStage.close_quality)
    × (d.stage ≢ StatusStage.save_hydraulics)
    × (d.stage ≢ StatusStage.generate_report)
    × (d.stage ≢ StatusStage.cleanup)

-- `All` of a negation against the loop that returns at the first hit.
abbrev pub Harmless : List Diagnostic → Type 0
Harmless ds = All (λ d. ¬ Spoils d) ds

concluding_iff :
    (s : StatusStage)
    → (concluding s ≡ false) ↔ (
        (s ≢ StatusStage.close_hydraulics)
        × (s ≢ StatusStage.close_quality)
        × (s ≢ StatusStage.save_hydraulics)
        × (s ≢ StatusStage.generate_report)
        × (s ≢ StatusStage.cleanup))
unfolding concluding
concluding_iff s = ground arith

invalidates_iff : (d : Diagnostic) → (diagnostic_invalidates_results d ≡ true) ↔ Spoils d
unfolding diagnostic_invalidates_results
invalidates_iff d = ground (
  arith,
  concluding_iff d.stage,
  same_iff DiagnosticSeverity-discrete d.severity DiagnosticSeverity.error,
  same_iff DiagnosticSeverity-discrete d.severity DiagnosticSeverity.fatal,
)

has_invalidating_iff :
    (ds : List Diagnostic) → (has_invalidating_diagnostic ds ≡ false) ↔ Harmless ds
unfolding has_invalidating_diagnostic
has_invalidating_iff [] = (λ _. tt, λ _. refl)
has_invalidating_iff (d ∷ ds) =
    let rest = has_invalidating_iff ds in
    let this = invalidates_iff d in
    elim (Bool-cases (diagnostic_invalidates_results d)) [
      | inl e ↦ (λ h. cc (h, e), λ h. absurd (h.0 (this.0 e)))
      | inr e ↦ (λ h. (λ s. cc (e, this.1 s), rest.0 (ground arith)), λ h. rw e (rest.1 h.1))
    ]

is_empty_iff {ℓ} : {A : Type ℓ} (xs : List A) → (is_empty xs ≡ true) ↔ (xs ≡ [])
is_empty_iff [] = ground arith
is_empty_iff (x ∷ xs) = ground arith

module _ {R : Type 0} (t : HydraulicTimeline R) where
  -- Hydraulic results are valid exactly when there are some and no diagnostic spoils them, partial
  -- exactly when there are some and one does, and invalid exactly when there are none.
  pub finalize_hydraulic_validity :
      let v = (finalize_epanet_hydraulic_result_validity t).validity in
      ((v ≡ HydraulicValidity.valid) ↔ ((t.results ≢ []) × Harmless t.diagnostics))
      × ((v ≡ HydraulicValidity.partial) ↔ ((t.results ≢ []) × ¬ Harmless t.diagnostics))
      × ((v ≡ HydraulicValidity.invalid) ↔ (t.results ≡ []))
  unfolding finalize_epanet_hydraulic_result_validity
  finalize_hydraulic_validity =
      ground (arith, has_invalidating_iff t.diagnostics, is_empty_iff t.results)

module _ {R : Type 0} (t : QualityTimeline R) where
  -- Quality results of an analysis that ran are valid, partial or invalid as the hydraulic ones are;
  -- those of no analysis are marked as not run.
  pub finalize_quality_validity :
      let v = (finalize_epanet_quality_result_validity t).validity in
      let ran = t.analysis ≢ WaterQualityAnalysisType.none in
      ((v ≡ QualityValidity.not_run) ↔ (t.analysis ≡ WaterQualityAnalysisType.none))
      × ((v ≡ QualityValidity.valid) ↔ (ran × (t.results ≢ []) × Harmless t.diagnostics))
      × ((v ≡ QualityValidity.partial) ↔ (ran × (t.results ≢ []) × ¬ Harmless t.diagnostics))
      × ((v ≡ QualityValidity.invalid) ↔ (ran × (t.results ≡ [])))
  unfolding finalize_epanet_quality_result_validity
  finalize_quality_validity = ground (
    arith,
    has_invalidating_iff t.diagnostics,
    is_empty_iff t.results,
    same_iff WaterQualityAnalysisType-discrete t.analysis WaterQualityAnalysisType.none,
  )
