-- ===== src/Project/Lifecycle.antt =====
-- src/lib/internal/epanet_project.cpp: creation, opening of an input file, and destruction.
use aowis_server_epanet.Base.{
  String, ◌≡◌, ◌∙◌, inl, inr, Bool, true, false, not, arith, if◌then◌else◌, Bool-cases, ℤ, pos,
  eqb_ℤ,
}
use aowis_server_epanet.Model.Enums.{StatusStage, StatusOperation, StatusEntityType}
use aowis_server_epanet.Model.Status.{Status, Externals, null_uuid}
use aowis_server_epanet.Project.{Project}
use aowis_server_epanet.StatusHelpers.{
  make_epanet_status, make_epanet_success, process_epanet_return_code,
}
use aowis_server_epanet.StatusHelpers.Codes.{
  make_epanet_success-success, process_epanet_return_code_lem,
}

-- The Toolkit's functions of a project, each with its return code and the native state after it.
pub record ProjectBackend (W : Type 0) : Type 0 where
  -- EN_createproject; the second component tells whether the handle is set afterwards.
  pub create_project : W → ℤ × Bool × W
  -- EN_open, of the encoded path
  pub open_file : String → W → ℤ × W
  -- EN_close and EN_deleteproject
  pub close_file : W → W
  pub delete_project : W → W

module _ {W : Type 0} (b : ProjectBackend W) where
  module _ ⦃ext : Externals⦄ where
    -- EpanetProject::create
    unfoldable pub create : Project W → Status × Project W
    create p =
        let (error, is_set, w) = b.create_project p.native in
        let made : Project W = record p { native = w; created = is_set } in
        let (status, processed) =
          process_epanet_return_code made error StatusStage.create_backend_context
            StatusOperation.create_backend_context "EN_createproject" StatusEntityType.project ""
            null_uuid "EPANET project creation failed" in
        if p.created
        then (
          make_epanet_status StatusStage.create_backend_context
              StatusOperation.create_backend_context StatusEntityType.project "" null_uuid
              "EPANET project already exists",
          p,
        )
        else if eqb_ℤ error (pos 0)
        then (make_epanet_success, made)
        else if not status.success
        then (status, processed)
        else (make_epanet_success, processed)

    -- EpanetProject::openInput
    unfoldable pub open_input : String → Project W → Status × Project W
    open_input path p =
        let (status, q) = create p in
        let (error, w) = b.open_file path q.native in
        let called : Project W = record q { native = w } in
        let (opened, processed) =
          process_epanet_return_code called error StatusStage.open_input StatusOperation.open_input
            "EN_open" StatusEntityType.project path null_uuid "Failed to open EPANET INP file" in
        if not status.success
        then (status, q)
        else if eqb_ℤ error (pos 0)
        then (make_epanet_success, record called { input_open = true })
        else if not opened.success
        then (opened, processed)
        else (make_epanet_success, record processed { input_open = true })

  -- EpanetProject::~EpanetProject: the native state that it leaves
  unfoldable pub destroy : Project W → W
  destroy p =
      if not p.created
      then p.native
      else b.delete_project (if p.input_open then b.close_file p.native else p.native)

module _ {W : Type 0} ⦃ext : Externals⦄ (b : ProjectBackend W) (p : Project W) where
  create-input : (create b p).1.input_open ≡ p.input_open
  unfolding create
  create-input =
      let (error, is_set, w) = b.create_project p.native in
      ground (
        arith,
        process_epanet_return_code_lem (record p { native = w; created = is_set }) error
            StatusStage.create_backend_context StatusOperation.create_backend_context
            "EN_createproject" StatusEntityType.project "" null_uuid
            "EPANET project creation failed",
      )

  -- Opening an input on a fresh project succeeds exactly when the project is then marked as open.
  pub open_input_iff :
      (path : String)
      → p.input_open ≡ false
      → (open_input b path p).0.success ≡ (open_input b path p).1.input_open
  unfolding open_input
  open_input_iff path h =
      let q = create b p in
      let (error, w) = b.open_file path q.1.native in
      let called : Project W = record q.1 { native = w } in
      let opened =
        process_epanet_return_code called error StatusStage.open_input StatusOperation.open_input
          "EN_open" StatusEntityType.project path null_uuid "Failed to open EPANET INP file" in
      let kept =
        process_epanet_return_code_lem called error StatusStage.open_input
          StatusOperation.open_input "EN_open" StatusEntityType.project path null_uuid
          "Failed to open EPANET INP file" in
      let not_yet = create-input ∙ h in
      elim (Bool-cases (not q.0.success)) [
        | inl e ↦ rw e (ground (arith, e, not_yet))
        | inr e ↦ rw e (elim (Bool-cases (eqb_ℤ error (pos 0))) [
          | inl f ↦ rw f make_epanet_success-success
          | inr f ↦ rw f (elim (Bool-cases (not opened.0.success)) [
            | inl g ↦ rw g (ground (arith, g, not_yet, kept))
            | inr g ↦ rw g make_epanet_success-success
          ])
        ])
      ]

  -- Destroying a fresh project on which an input was opened deletes it if it was created, and closes
  -- the input before that exactly when the opening succeeded.
  pub open_input-destroy :
      (path : String)
      → p.input_open ≡ false
      → let r = open_input b path p in
        destroy b r.1 ≡ (
          if r.1.created
          then b.delete_project (if r.0.success then b.close_file r.1.native else r.1.native)
          else r.1.native)
  unfolding destroy
  open_input-destroy path h = ground (arith, open_input_iff path h)
