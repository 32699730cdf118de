-- ===== src/Model/Run.antt =====
-- src/include/aowis/epanet/epanet_result_run.h and epanet_run_request.h: what one request asks for and
-- what it gives back. `D` is the type of a `double`, `R` holds the values of one quality result, `M` is
-- the multi-species result.
use aowis_server_epanet.Base.{ℕ, String, Bool, List, Option}
use aowis_server_epanet.Model.Status.{Status, Diagnostic}
use aowis_server_epanet.Model.Timelines.{HydraulicTimeline, QualityTimeline}
use aowis_server_epanet.Model.Network.{Network}
use aowis_server_epanet.Model.Results.{HydraulicResult}
use aowis_server_epanet.Quality.{QualityResult}
use aowis_server_epanet.Validation.Whole.{QualityOptions}

pub data EpanetRunState : Type 0 where
  pending running success warning error cancelled skipped : EpanetRunState

pub EpanetRunState-discrete : Discrete EpanetRunState
EpanetRunState-discrete = hlevel

pub record EpanetQualityResult (D R : Type 0) : Type 0 where
  pub options : QualityOptions D
  pub result_timeline : QualityTimeline (QualityResult R)
  pub report_lines : List String
  pub report_text : String
  pub state : EpanetRunState

pub record EpanetResultRun (D R M : Type 0) : Type 0 where
  pub result_timeline : HydraulicTimeline (HydraulicResult D)
  pub quality_results : List (EpanetQualityResult D R)
  pub multi_species_result : Option M
  pub status : Status
  pub diagnostics : List Diagnostic
  pub report_lines : List String
  pub report_text : String
  pub state : EpanetRunState
  pub cancelled : Bool

-- MultiSpeciesSimulationResultTimeline: what the runner reads or writes, and the rest in `values`.
pub record MultiSpeciesTimeline (V : Type 0) : Type 0 where
  pub simulation_start_utc : ℕ
  pub diagnostics : List Diagnostic
  pub values : V

-- `O` is MultiSpeciesRunOptions.
pub record EpanetMultiSpeciesResult (O V : Type 0) : Type 0 where
  pub options : O
  pub result_timeline : MultiSpeciesTimeline V
  pub state : EpanetRunState

pub record EpanetRunRequest (D O : Type 0) : Type 0 where
  pub network : Network D
  pub quality_runs : List (QualityOptions D)
  pub multi_species_run : Option O
