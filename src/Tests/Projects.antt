-- ===== src/Tests/Projects.antt =====
-- A project opened and destroyed, on a Toolkit that counts its calls.
use aowis_server_epanet.Base.{ℕ, ◌+◌, ◌≡◌, refl, true, false, [], if◌then◌else◌, pos}
use aowis_server_epanet.Project.{Project}
use aowis_server_epanet.Project.Lifecycle.{ProjectBackend, open_input, destroy, open_input-destroy}
use aowis_server_epanet.Tests.Samples.{sample_externals}

abbrev counting : ProjectBackend ℕ
counting = record {
  create_project = λ w. (pos 0, true, w + 1);
  open_file = λ path w. (pos 0, w + 1);
  close_file = λ w. w + 10;
  delete_project = λ w. w + 100;
}

abbrev nothing_yet : Project ℕ
nothing_yet = record { native = 0; created = false; input_open = false; diagnostics_collected = [] }

destroy_example :
    let r = open_input counting "net.inp" nothing_yet in
    destroy counting r.1 ≡ (
      if r.1.created
      then counting.delete_project
          (if r.0.success then counting.close_file r.1.native else r.1.native)
      else r.1.native)
destroy_example = open_input-destroy counting nothing_yet "net.inp" refl
