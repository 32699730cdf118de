-- ===== src/Finalizer.antt =====
-- src/lib/internal/epanet_result_finalizer.cpp: whether a timeline's results may be used.
pub mod Validity
use aowis_server_epanet.Base.{
  ℕ, zero, suc, ◌+◌, ◌-◌, ◌*◌, ◌/◌, ◌%◌, ◌^◌, ◌≤◌, ◌<◌, min, max, String, ◌≡◌, refl, sym, ap, ◌∙◌,
  subst, ◌≢◌, ◌↔◌, ◌⊎◌, inl, inr, Bool, true, false, not, ◌&&◌, ◌||◌, Option, none, some, List, [],
  ◌∷◌, ◌++◌, map, append_assoc, append-nil, arith, eq_iff, ltb, leb, ◌==◌, str_eq, if◌then◌else◌,
  ==_iff, Bool-cases, Option-cases, decided, same, decided_iff, same_iff, length, take, drop,
  length-append, All, All-append, get_elem?, is_empty, update_last, any, any-append, ℤ, pos, negsuc,
  pos_part, neg_part, ltb_ℤ, eqb_ℤ,
}
use aowis_server_epanet.Model.Enums.{
  DiagnosticSeverity, DiagnosticSeverity-discrete, StatusStage, WaterQualityAnalysisType,
  WaterQualityAnalysisType-discrete,
}
use aowis_server_epanet.Model.Status.{Diagnostic}
use aowis_server_epanet.Model.Timelines.{
  HydraulicValidity, QualityValidity, HydraulicTimeline, QualityTimeline,
}

-- The stages that run after the results are read.
concluding : StatusStage → Bool
concluding StatusStage.close_hydraulics = true
concluding StatusStage.close_quality = true
concluding StatusStage.save_hydraulics = true
concluding StatusStage.generate_report = true
concluding StatusStage.cleanup = true
concluding _ = false

-- diagnosticInvalidatesResults
pub diagnostic_invalidates_results : Diagnostic → Bool
unfolding concluding
diagnostic_invalidates_results d =
    if not (same DiagnosticSeverity-discrete d.severity DiagnosticSeverity.error)
      && not (same DiagnosticSeverity-discrete d.severity DiagnosticSeverity.fatal)
    then false
    else not (concluding d.stage)

-- hasInvalidatingDiagnostic
pub has_invalidating_diagnostic : List Diagnostic → Bool
has_invalidating_diagnostic diagnostics = any diagnostic_invalidates_results diagnostics

module _ {R : Type 0} where
  -- finalizeEpanetHydraulicResultValidity
  unfoldable pub finalize_epanet_hydraulic_result_validity :
      HydraulicTimeline R → HydraulicTimeline R
  finalize_epanet_hydraulic_result_validity timeline = record timeline {
    validity =
        if has_invalidating_diagnostic timeline.diagnostics
        then (if is_empty timeline.results
            then HydraulicValidity.invalid
            else HydraulicValidity.partial)
        else if is_empty timeline.results
        then HydraulicValidity.invalid
        else HydraulicValidity.valid;
  }

  -- finalizeEpanetQualityResultValidity
  unfoldable pub finalize_epanet_quality_result_validity : QualityTimeline R → QualityTimeline R
  finalize_epanet_quality_result_validity timeline = record timeline {
    validity =
        if same WaterQualityAnalysisType-discrete timeline.analysis WaterQualityAnalysisType.none
        then QualityValidity.not_run
        else if has_invalidating_diagnostic timeline.diagnostics
        then (if is_empty timeline.results
            then QualityValidity.invalid
            else QualityValidity.partial)
        else if is_empty timeline.results
        then QualityValidity.invalid
        else QualityValidity.valid;
  }

  -- markEpanetHydraulicResultCancelled
  unfoldable pub mark_epanet_hydraulic_result_cancelled : HydraulicTimeline R → HydraulicTimeline R
  mark_epanet_hydraulic_result_cancelled timeline = record timeline {
    validity =
        if is_empty timeline.results then HydraulicValidity.invalid else HydraulicValidity.partial;
  }

  -- markEpanetQualityResultCancelled
  unfoldable pub mark_epanet_quality_result_cancelled : QualityTimeline R → QualityTimeline R
  mark_epanet_quality_result_cancelled timeline = record timeline {
    validity =
        if is_empty timeline.results then QualityValidity.invalid else QualityValidity.partial;
  }
