-- ===== src/StatusHelpers.antt =====
-- src/lib/internal/epanet_status_helpers.cpp: how an EPANET return code becomes a status, and a
-- warning in the project's diagnostics.
pub mod Codes
use aowis_server_epanet.Base.{
  Bool, true, false, not, ◌&&◌, ◌||◌, ℤ, pos, ltb_ℤ, eqb_ℤ, String, if◌then◌else◌,
}
use aowis_server_epanet.Model.Enums.{
  StatusStage, StatusOperation, StatusEntityType, DiagnosticSeverity,
}
use aowis_server_epanet.Model.Status.{Uuid, Status, Diagnostic, Externals}
use aowis_server_epanet.Project.{Project, error_message, append_diagnostic}

-- isEpanetWarningCode
unfoldable pub is_epanet_warning_code : ℤ → Bool
is_epanet_warning_code code = ltb_ℤ (pos 0) code && ltb_ℤ code (pos 100)

-- isEpanetErrorCode
unfoldable pub is_epanet_error_code : ℤ → Bool
is_epanet_error_code code = ltb_ℤ code (pos 0) || not (ltb_ℤ code (pos 100))

-- The diagnostic with a status's fields.
unfoldable pub diagnostic_of : Status → DiagnosticSeverity → Diagnostic
diagnostic_of status severity = record {
  severity = severity;
  stage = status.stage;
  operation = status.operation;
  property = status.property;
  entity = status.entity;
  message = status.message;
  details = status.details;
  backend_name = status.backend_name;
  backend_error_code = status.backend_error_code;
  backend_operation = status.backend_operation;
  message_backend = status.message_backend;
}

module _ ⦃ext : Externals⦄ where
  -- makeEpanetStatus
  unfoldable pub make_epanet_status :
      StatusStage → StatusOperation → StatusEntityType → String → Uuid → String → Status
  make_epanet_status stage operation entity_type entity_id entity_uuid message =
      record ext.default_status {
        success = false;
        stage = stage;
        operation = operation;
        entity = record { type = entity_type; id = entity_id; uuid = entity_uuid };
        message = message;
        backend_name = "EPANET";
      }

  -- makeEpanetSuccess
  unfoldable pub make_epanet_success : Status
  make_epanet_success = record ext.default_status { success = true; backend_name = "EPANET" }

  -- makeEpanetError
  unfoldable pub make_epanet_error :
      ℤ
      → StatusStage
      → StatusOperation
      → String
      → StatusEntityType
      → String
      → Uuid
      → String
      → Status
  unfolding make_epanet_status error_message
  make_epanet_error code stage operation backend_operation entity_type entity_id entity_uuid
        message =
      record (make_epanet_status stage operation entity_type entity_id entity_uuid message) {
        backend_error_code = code;
        backend_operation = backend_operation;
        message_backend = error_message code;
      }

  -- processEpanetReturnCode: the status, and the project with its new diagnostics.
  unfoldable pub process_epanet_return_code :
      {W : Type 0}
      → Project W
      → ℤ
      → StatusStage
      → StatusOperation
      → String
      → StatusEntityType
      → String
      → Uuid
      → String
      → Status × Project W
  unfolding diagnostic_of is_epanet_error_code is_epanet_warning_code make_epanet_error
      make_epanet_success
  process_epanet_return_code project code stage operation backend_operation entity_type entity_id
        entity_uuid message =
      let status =
        make_epanet_error code stage operation backend_operation entity_type entity_id entity_uuid
          message in
      if eqb_ℤ code (pos 0)
      then (make_epanet_success, project)
      else if is_epanet_error_code code || not (is_epanet_warning_code code)
      then (status, project)
      else (
        make_epanet_success,
        append_diagnostic project (diagnostic_of status DiagnosticSeverity.warning),
      )
