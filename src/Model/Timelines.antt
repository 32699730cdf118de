-- ===== src/Model/Timelines.antt =====
-- The result timelines that one run fills: hydraulic and water-quality results, their validity and
-- their diagnostics. `R` is the type of one result.
use aowis_server_epanet.Base.{ℕ, List}
use aowis_server_epanet.Model.Enums.{WaterQualityAnalysisType}
use aowis_server_epanet.Model.Status.{Status, Diagnostic}

-- HydraulicSimulationResultValidity
pub data HydraulicValidity : Type 0 where
  invalid partial valid : HydraulicValidity

-- WaterQualitySimulationResultValidity
pub data QualityValidity : Type 0 where
  not_run invalid partial valid : QualityValidity

-- HydraulicSimulationResultTimeline
pub record HydraulicTimeline (R : Type 0) : Type 0 where
  pub simulation_start_utc : ℕ
  pub status : Status
  pub validity : HydraulicValidity
  pub results : List R
  pub diagnostics : List Diagnostic

-- WaterQualitySimulationResultTimeline
pub record QualityTimeline (R : Type 0) : Type 0 where
  pub simulation_start_utc : ℕ
  pub analysis : WaterQualityAnalysisType
  pub status : Status
  pub validity : QualityValidity
  pub results : List R
  pub diagnostics : List Diagnostic
