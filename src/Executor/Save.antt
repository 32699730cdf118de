-- ===== src/Executor/Save.antt =====
-- saveHydraulics: the hydraulic results are kept in the native project and, when asked for, in a file
-- with the configured input text beside it.
use aowis_server_epanet.Base.{
  String, Bool, not, ◌&&◌, Option, none, some, str_eq, if◌then◌else◌, ℤ, pos, eqb_ℤ,
}
use aowis_server_epanet.Model.Enums.{StatusStage, StatusOperation, StatusEntityType}
use aowis_server_epanet.Model.Status.{Status, Externals, null_uuid}
use aowis_server_epanet.Project.{Project}
use aowis_server_epanet.StatusHelpers.{
  make_epanet_status, make_epanet_success, process_epanet_return_code,
}
use aowis_server_epanet.Executor.{ExecutorBackend}

-- The executor's members and the prepared project. An empty path or text is the cleared member;
-- `directory` is the path of the temporary directory that is held.
pub record Saved (W : Type 0) : Type 0 where
  pub project : Project W
  pub directory : Option String
  pub hydraulic_file_path : String
  pub hydraulic_inp_text : String

module _ {W D R : Type 0} (b : ExecutorBackend W D R) where
  abbrev pub with_native : Saved W → W → Saved W
  with_native s w = record s { project = record s.project { native = w } }

  -- hasHydraulicFile
  unfoldable pub has_hydraulic_file : Saved W → Bool
  has_hydraulic_file s =
      not (str_eq s.hydraulic_file_path "") && b.is_file s.hydraulic_file_path s.project.native

  -- `hydraulic_artifact_directory_.reset()`
  unfoldable pub reset_directory : Saved W → Saved W
  reset_directory s = elim s.directory [
    | none ↦ s
    | some path ↦ record (with_native s (b.remove_directory path s.project.native)) {
      directory = none;
    }
  ]

  -- The three members cleared.
  unfoldable pub clear : Saved W → Saved W
  clear s = reset_directory (record s { hydraulic_file_path = ""; hydraulic_inp_text = "" })

  module _ ⦃ext : Externals⦄ where
    abbrev save_status : StatusEntityType → String → Status
    save_status entity_type message =
        make_epanet_status StatusStage.save_hydraulics StatusOperation.save_hydraulics entity_type
          "" null_uuid message

    abbrev pub process_save : Saved W → ℤ → String → String → Status × Saved W
    process_save s error call message =
        let (status, project) =
          process_epanet_return_code s.project error StatusStage.save_hydraulics
            StatusOperation.save_hydraulics call StatusEntityType.hydraulic_solver "" null_uuid
            message in
        (status, record s { project = project })

    -- From the file that was written on: its test, and the input text.
    unfoldable pub save_inp_text : Saved W → Status × Saved W
    save_inp_text s =
        let (status, text, project) = b.retrieve_inp_text s.project in
        let t = record s { project = project; hydraulic_inp_text = text } in
        if not (has_hydraulic_file s)
        then (
          save_status StatusEntityType.hydraulic_solver
              "EPANET reported success while persisting hydraulics, but no reusable hydraulic file was created",
          clear s,
        )
        else if not status.success
        then (status, clear t)
        else if str_eq (ext.trimmed text) ""
        then (
          save_status StatusEntityType.project
              "EPANET produced an empty configured INP snapshot for reusable hydraulics",
          clear t,
        )
        else (make_epanet_success, t)

    -- From the new directory on: an invalid one is dropped, and the file goes into a valid one.
    unfoldable pub save_in_directory : Option String → Saved W → Status × Saved W
    save_in_directory none s = (
      save_status StatusEntityType.hydraulic_solver
          "Failed to create a temporary directory for reusable EPANET hydraulic results",
      s,
    )
    save_in_directory (some path) s =
        let file = b.path_inside path "hydraulics.hyd" in
        let (error, w) = b.save_hyd_file file s.project.native in
        let t = record (with_native s w) { directory = some path; hydraulic_file_path = file } in
        let (status, u) =
          process_save t error "EN_savehydfile"
            "Failed to persist reusable EPANET hydraulic results" in
        if eqb_ℤ error (pos 0) then save_inp_text t else (status, clear u)

    -- A new directory replaces the one that is held.
    unfoldable pub save_file : Saved W → Status × Saved W
    save_file s =
        let (made, w) = b.make_directory s.project.native in
        save_in_directory made (reset_directory (with_native s w))

    -- saveHydraulics
    unfoldable pub save_hydraulics : Bool → Saved W → Status × Saved W
    save_hydraulics persist_hydraulic_file s =
        let (error, w) = b.save_h s.project.native in
        let t = with_native s w in
        if not (eqb_ℤ error (pos 0))
        then process_save t error "EN_saveH" "Failed to save EPANET hydraulic results"
        else if not persist_hydraulic_file
        then (make_epanet_success, t)
        else save_file t
