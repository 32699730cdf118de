-- ===== src/Lib.antt =====
-- aowis_server_epanet: the EPANET adapter of the AOWIS server, src/lib.
-- An adapter between a hydraulic network model and the EPANET Toolkit: it validates a network,
-- builds it in a native project, runs hydraulics and water quality step by step, collects results
-- and diagnostics, and says at the end how far the results can be trusted.
--
-- The parts, with paths from the repository's root:
--   * Model: the enumerations, statuses, diagnostics, timelines, networks and results of the model
--     library, with the fields that the adapter reads or writes; Model.Status.Externals is what the
--     adapter takes from Qt and from the Toolkit, and Model.Doubles the operations on `double`.
--   * Project: src/lib/internal/epanet_project.cpp, the collected diagnostics, the error text and
--     the life of a native project (Lifecycle).
--   * StatusHelpers: src/lib/internal/epanet_status_helpers.cpp, statuses from return codes.
--   * Diagnostics: src/lib/internal/epanet_diagnostic_helpers.cpp, lists of diagnostics.
--   * Finalizer: src/lib/internal/epanet_result_finalizer.cpp, the validity of results.
--   * Validation: src/lib/internal/epanet_network_validator_support.cpp and _support.h (Support and
--     Numbers), _identity.cpp, _topology.cpp and epanet_network_validator.cpp (Whole), which report
--     failures as a list of statuses.
--   * Hydraulics: src/lib/internal/epanet_hydraulic_solver.cpp. The state passes through the stages
--     of the loop's body, each of which goes on or breaks (Loop.Flow); Hydraulics.Energy and
--     Hydraulics.FlowBalance hold the sums. Statuses come from StatusHelpers, and diagnostics go to
--     the Project.
--   * Quality: src/lib/internal/epanet_quality_solver.cpp, a solver of the same shape whose failures
--     go to its timeline.
--   * ReportCollector and Executor: src/lib/internal/epanet_report_collector.cpp and
--     epanet_multi_quality_run_executor.cpp: hydraulics once (Executor.Run), the hydraulic file that
--     is kept (Save), the reports (Report) and a round of the loop for each quality run (Round).
--   * Projection: src/lib/internal/hydraulic_node_demand_projection.cpp, the demands of the demand
--     points on junctions, and their aggregation (Projection.Aggregation). Projection.Shares is the
--     independent account of what a junction receives.
--   * Preparer: src/lib/internal/epanet_network_preparer.cpp, the network that the solver gets: validated,
--     without disabled entities, projected, validated again, with what is left of the report selections.
--   * Runner: src/lib/epanet_runner.cpp and src/lib/internal/epanet_prepared_project.cpp: the
--     preparation (Prepared), the early results (Early), run (Run), retrieveInp (Inp) and the report
--     text (Text). It calls the executor, which calls the two solvers.
--   * Manager: src/lib/epanet_simulation_manager.cpp, the simulations on a thread pool. Each step of a
--     thread is a function on the state, and Manager.Steps relates the states of all interleavings;
--     a task's run is the Runner's, with the cancellation function Manager.poll. That QUuid::createUuid
--     gives a UUID that no other task has is a premise of the step; where the order of a simulation's
--     signals is concerned, that no earlier simulation had it (Manager.Ordered.NewId).
--   * Base and Loop: shared lemmas and the rules of loops; Tests: the concrete inputs.
--
-- The Toolkit, the files, the configurators, the result readers and the cancellation function are
-- parameters (Project.Lifecycle.ProjectBackend, Hydraulics.HydraulicBackend, Quality.QualityBackend,
-- Executor.ExecutorBackend and Runner.RunnerBackend); what is relied on is stated by
-- Hydraulics.Phases.Protocol, Hydraulics.Ends.Clock, Quality.Stages.QualityLaws,
-- Executor.Laws.ExecutorLaws and Runner.Outcome.RunnerLaws. The parts of the validator that are not
-- modelled are parameters too (Validation.Whole.OtherChecks). The native state, the report collector
-- that the Toolkit's callback writes and the index registry are one type. A UUID is its number;
-- `double` is a type with operations and no laws. A hash is an association list whose last insertion
-- comes first.
-- The solvers' loops run on fuel: each round that goes on advances the elapsed time by at least a
-- second, so that two rounds more than the last time of the simulation are enough. `long` times are
-- unbounded integers; the sum of a time and the pattern start wraps at 64 bits as in the code.
--
-- Not modelled: the material library of the network preparer
-- (a parameter), the network builder, the reference and numeric
-- checks of the validator, the readers and configurators, which call the Toolkit field by field; the
-- importers and exporters, which are text input and output; the multi-species extension, sample
-- networks, printers and the server process. The branches for enumeration values that do not exist
-- are left out.
pub mod Base
pub mod Model
pub mod Project
pub mod StatusHelpers
pub mod Diagnostics
pub mod Finalizer
pub mod Validation
pub mod Loop
pub mod Hydraulics
pub mod Quality
pub mod ReportCollector
pub mod Projection
pub mod Preparer
pub mod Executor
pub mod Runner
pub mod Manager
mod Tests
