-- ===== src/Runner.antt =====
-- src/lib/epanet_runner.cpp: a request for hydraulics, quality runs and a multi-species run, from its
-- validation to the report text. Here is what the runner works with.
pub mod Text
pub mod Prepared
pub mod Early
pub mod Run
pub mod Inp
pub mod Ended
pub mod Branches
pub mod Outcome
pub mod Prefix
use aowis_server_epanet.Base.{
  ℕ, zero, suc, ◌+◌, ◌-◌, ◌*◌, ◌/◌, ◌%◌, ◌^◌, ◌≤◌, ◌<◌, min, max, String, ◌≡◌, refl, sym, ap, ◌∙◌,
  subst, ◌≢◌, ◌↔◌, ◌⊎◌, inl, inr, Bool, true, false, not, ◌&&◌, ◌||◌, Option, none, some, List, [],
  ◌∷◌, ◌++◌, map, append_assoc, append-nil, arith, eq_iff, ltb, leb, ◌==◌, str_eq, if◌then◌else◌,
  ==_iff, Bool-cases, Option-cases, decided, same, decided_iff, same_iff, length, take, drop,
  length-append, All, All-append, get_elem?, is_empty, update_last, any, any-append, ℤ, pos, negsuc,
  pos_part, neg_part, ltb_ℤ, eqb_ℤ,
}
use aowis_server_epanet.Model.Status.{Status, Diagnostic}
use aowis_server_epanet.Model.Timelines.{HydraulicTimeline, QualityTimeline}
use aowis_server_epanet.Model.Network.{Network}
use aowis_server_epanet.Model.Results.{HydraulicResult}
use aowis_server_epanet.Model.Run.{MultiSpeciesTimeline}
use aowis_server_epanet.Project.{Project}
use aowis_server_epanet.Project.Lifecycle.{ProjectBackend}
use aowis_server_epanet.Quality.{QualityResult}
use aowis_server_epanet.Executor.{ExecutorBackend}
use aowis_server_epanet.Validation.Whole.{QualityOptions}

-- The collaborators of the runner. `O` is MultiSpeciesRunOptions, and `V` holds the values of a
-- multi-species timeline. The index registry is part of the native state `W`.
pub record RunnerBackend (W D R O V : Type 0) : Type 0 where
  -- The Toolkit and the adapter's configurators for a prepared network.
  pub executor : Network D → ExecutorBackend W D R
  pub project : ProjectBackend W
  -- The cancellation function, if there is one.
  pub cancellation : Option (W → Bool × W)
  -- QDateTime::currentDateTimeUtc
  pub now : W → ℕ × W
  -- prepareEpanetNetwork with its failures, and collectEpanetNetworkAdvisories
  pub prepare_network : Network D → Status × List Status × Network D
  pub advisories : Network D → List Diagnostic
  -- initializeEpanetProject, and EpanetNetworkBuilder::build
  pub initialize_project : Network D → Project W → Status × Project W
  pub build : Network D → Project W → Status × Project W
  -- validateEpanetMultiSpeciesRun, and EpanetMsxProject::run with its `cancelled` output
  pub validate_multi_species : Network D → O → Status
  pub msx_run :
      Network D
      → O
      → String
      → String
      → MultiSpeciesTimeline V
      → W
      → Status × MultiSpeciesTimeline V × Bool × W
  -- The default-constructed values.
  pub default_hydraulic_timeline : HydraulicTimeline (HydraulicResult D)
  pub default_quality_timeline : QualityTimeline (QualityResult R)
  pub default_multi_species_timeline : MultiSpeciesTimeline V
  pub default_network : Network D
  pub default_quality_options : QualityOptions D
