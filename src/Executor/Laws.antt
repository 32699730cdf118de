-- ===== src/Executor/Laws.antt =====
-- What the executor relies on in the Toolkit, in the readers and in the functions that configure it.
use aowis_server_epanet.Base.{ℕ, ◌≡◌, true}
use aowis_server_epanet.Project.{Project}
use aowis_server_epanet.Hydraulics.Phases.{Phase, Protocol}
use aowis_server_epanet.Hydraulics.Ends.{Clock}
use aowis_server_epanet.Quality.Stages.{QualityLaws}
use aowis_server_epanet.Executor.{ExecutorBackend}
use aowis_server_epanet.Executor.Round.{quality_solver}
use aowis_server_epanet.Executor.Run.{hydraulic_solver}
use aowis_server_epanet.Model.Enums.{WaterQualityAnalysisType}
use aowis_server_epanet.Validation.Whole.{QualityOptions}

-- `hydraulics` and `quality` say whether the two solvers of the native project are open. The Toolkit
-- refuses to set the quality type while its quality solver is open, so that a successful configuration
-- finds it closed.
pub record ExecutorLaws {W D R : Type 0} (b : ExecutorBackend W D R)
    (hydraulics quality : W → Phase) (last : ℕ) : Type 0 where
  pub protocol : Protocol (hydraulic_solver b) hydraulics
  pub clock : Clock (hydraulic_solver b) last
  pub quality_laws :
      (analysis : WaterQualityAnalysisType) → QualityLaws (quality_solver b analysis) quality last
  pub remove_keeps : (path : _) (w : W) → hydraulics (b.remove_directory path w) ≡ hydraulics w
  pub configure_keeps :
      (p : Project W) → hydraulics (b.configure_hydraulic_run p).1.native ≡ hydraulics p.native
  pub configured_closed :
      (options : QualityOptions D) (p : Project W)
      → (b.configure_quality_run options p).0.success ≡ true
      → quality (b.configure_quality_run options p).1.native ≡ Phase.closed
