-- ===== src/StatusHelpers/Codes.antt =====
-- What `processEpanetReturnCode` does with each class of return codes.
use Prim.Native.String.{◌++◌ as append}
use aowis_server_epanet.Base.{
  true, false, not, ◌&&◌, ◌||◌, ℤ, pos, negsuc, String, ◌≡◌, refl, [], ◌∷◌, ◌++◌, arith, append-nil,
  if◌then◌else◌, ltb_ℤ, eqb_ℤ,
}
use aowis_server_epanet.Model.Enums.{
  StatusStage, StatusOperation, StatusEntityType, DiagnosticSeverity,
}
use aowis_server_epanet.Model.Status.{Uuid, Status, Diagnostic, Externals}
use aowis_server_epanet.Project.{Project, error_message}
use aowis_server_epanet.StatusHelpers.{
  is_epanet_warning_code, is_epanet_error_code, make_epanet_error, make_epanet_success,
  make_epanet_status, process_epanet_return_code, diagnostic_of,
}

-- Every return code is exactly one of 0, a warning and an error.
pub code_classes :
    (code : ℤ)
    → (eqb_ℤ code (pos 0) ≡ (not (is_epanet_warning_code code) && not (is_epanet_error_code code)))
      × ((is_epanet_warning_code code && is_epanet_error_code code) ≡ false)
unfolding is_epanet_warning_code is_epanet_error_code
code_classes (pos n) = (ground arith, ground arith)
code_classes (negsuc n) = (ground arith, ground arith)

pub make_epanet_success-success : ⦃ext : Externals⦄ → make_epanet_success.success ≡ true
unfolding make_epanet_success
make_epanet_success-success = refl

module _ ⦃ext : Externals⦄ {W : Type 0} (p : Project W) (code : ℤ) (stage : StatusStage)
    (operation : StatusOperation) (call : String) (type : StatusEntityType) (id : String)
    (uuid : Uuid) (message : String) where
  abbrev processed : Status × Project W
  processed = process_epanet_return_code p code stage operation call type id uuid message

  -- The text that EN_geterror writes for the code, or one with the code's number where it has none.
  abbrev pub toolkit_text : String
  toolkit_text =
      let (result, text) = ext.get_error code in
      if eqb_ℤ result (pos 0)
      then text
      else append "Unknown EPANET error code " (ext.number_text code)

  -- A failure with the code, the call and the text of the Toolkit.
  abbrev pub failure_of_code : Status
  failure_of_code = record ext.default_status {
    success = false;
    stage = stage;
    operation = operation;
    entity = record { type = type; id = id; uuid = uuid };
    message = message;
    backend_name = "EPANET";
    backend_error_code = code;
    backend_operation = call;
    message_backend = toolkit_text;
  }

  -- The diagnostic with the same.
  abbrev pub warning_of_code : Diagnostic
  warning_of_code = record {
    severity = DiagnosticSeverity.warning;
    stage = stage;
    operation = operation;
    property = ext.default_status.property;
    entity = record { type = type; id = id; uuid = uuid };
    message = message;
    details = ext.default_status.details;
    backend_name = "EPANET";
    backend_error_code = code;
    backend_operation = call;
    message_backend = toolkit_text;
  }

  make_epanet_error_lem :
      eqb_ℤ code (pos 0) ≡ false
      → make_epanet_error code stage operation call type id uuid message ≡ failure_of_code
  unfolding make_epanet_error make_epanet_status error_message
  make_epanet_error_lem e = rw e refl

  diagnostic_of_lem : diagnostic_of failure_of_code DiagnosticSeverity.warning ≡ warning_of_code
  unfolding diagnostic_of
  diagnostic_of_lem = refl

  -- A code below 0 or from 100 on gives a failure with the code, the call and the text of the Toolkit
  -- for the code; any other code gives success. A code between 0 and 100 adds one diagnostic of
  -- severity Warning with the code, the call and the text to the project, no other code adds any, and
  -- nothing else of the project changes.
  pub process_epanet_return_code_lem :
      (processed.0 ≡ (
        if ltb_ℤ code (pos 0) || not (ltb_ℤ code (pos 100))
        then failure_of_code
        else record ext.default_status { success = true; backend_name = "EPANET" }))
      × (processed.1.diagnostics_collected
          ≡ p.diagnostics_collected
            ++ (if ltb_ℤ (pos 0) code && ltb_ℤ code (pos 100) then warning_of_code ∷ [] else []))
      × (processed.1.native ≡ p.native)
      × (processed.1.created ≡ p.created)
      × (processed.1.input_open ≡ p.input_open)
  unfolding process_epanet_return_code make_epanet_success is_epanet_error_code
      is_epanet_warning_code
  process_epanet_return_code_lem = ground (
    arith,
    code_classes code,
    append-nil p.diagnostics_collected,
    make_epanet_error_lem,
    diagnostic_of_lem,
  )

pub zero_code : (code : ℤ) → eqb_ℤ code (pos 0) ≡ true → is_epanet_error_code code ≡ false
zero_code code h = grind (arith, code_classes code)

module _ ⦃ext : Externals⦄ where
  make_epanet_error-success :
      (code : ℤ) (stage : StatusStage) (operation : StatusOperation) (call : String)
      (type : StatusEntityType) (id : String) (uuid : Uuid) (message : String)
      → (make_epanet_error code stage operation call type id uuid message).success ≡ false
  unfolding make_epanet_error make_epanet_status
  make_epanet_error-success code stage operation call type id uuid message = refl

  pub process-success :
      {W : Type 0} (p : Project W) (code : ℤ) (stage : StatusStage) (operation : StatusOperation)
      (call : String) (type : StatusEntityType) (id : String) (uuid : Uuid) (message : String)
      → (process_epanet_return_code p code stage operation call type id uuid message).0.success
        ≡ not (is_epanet_error_code code)
  unfolding is_epanet_error_code
  process-success p code stage operation call type id uuid message = grind (
    arith,
    make_epanet_success-success,
    make_epanet_error-success,
    process_epanet_return_code_lem p code stage operation call type id uuid message,
  )
