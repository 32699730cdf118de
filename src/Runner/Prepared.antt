-- ===== src/Runner/Prepared.antt =====
-- src/lib/internal/epanet_prepared_project.cpp: the native project of a request's network.
use aowis_server_epanet.Base.{false, not, List, [], ◌∷◌, map, if◌then◌else◌}
use aowis_server_epanet.Model.Status.{Status, Diagnostic, Externals}
use aowis_server_epanet.Model.Network.{Network}
use aowis_server_epanet.Project.{Project, append_diagnostic}
use aowis_server_epanet.Project.Lifecycle.{create}
use aowis_server_epanet.Diagnostics.{epanet_diagnostic_from_status}
use aowis_server_epanet.Runner.{RunnerBackend}

-- EpanetPreparedProject: the registry and the report collector are in the native state.
pub record PreparedProject (W D : Type 0) : Type 0 where
  pub project : Project W
  pub prepared_network : Network D

module _ {W : Type 0} where
  abbrev pub append_diagnostics : Project W → List Diagnostic → Project W
  append_diagnostics p [] = p
  append_diagnostics p (d ∷ ds) = append_diagnostics (append_diagnostic p d) ds

module _ {W D R O V : Type 0} (b : RunnerBackend W D R O V) where
  abbrev pub default_prepared : W → PreparedProject W D
  default_prepared w = record {
    project = record {
      native = w;
      created = false;
      input_open = false;
      diagnostics_collected = [];
    };
    prepared_network = b.default_network;
  }

  -- From the creation of the native project on.
  unfoldable pub create_and_build :
      ⦃ext : Externals⦄ → PreparedProject W D → Status × PreparedProject W D
  create_and_build p =
      let (created, q) = create b.project p.project in
      let (initialized, r) = b.initialize_project p.prepared_network q in
      let (built, s) = b.build p.prepared_network r in
      if not created.success
      then (created, record p { project = q })
      else if not initialized.success
      then (initialized, record p { project = r })
      else (built, record p { project = s })

  -- EpanetPreparedProject::prepare
  unfoldable pub prepare :
      ⦃ext : Externals⦄ → Network D → PreparedProject W D → Status × PreparedProject W D
  prepare request p =
      let (status, failures, network) = b.prepare_network request in
      let reported =
        append_diagnostics
          (append_diagnostics p.project (map epanet_diagnostic_from_status failures))
          (b.advisories request) in
      let prepared : PreparedProject W D = record {
        project = reported;
        prepared_network = network;
      } in
      if not status.success then (status, prepared) else create_and_build prepared
