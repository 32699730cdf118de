-- ===== src/Model/Status.antt =====
-- `HydraulicSimulationStatus`, `HydraulicSimulationDiagnostic` and what the adapter calls in Qt and
-- in the EPANET Toolkit to fill them. The structs belong to the model library; the fields are
-- those that src/lib reads or writes.
use aowis_server_epanet.Base.{ℕ, Bool, ℤ, String, List}
use aowis_server_epanet.Model.Enums.{
  StatusStage, StatusOperation, StatusEntityType, DiagnosticSeverity,
}

-- A `QUuid` is its 128-bit value; the null UUID is 0.
abbrev pub Uuid : Type 0
Uuid = ℕ

abbrev pub null_uuid : Uuid
null_uuid = 0

pub record Entity : Type 0 where
  pub type : StatusEntityType
  pub id : String
  pub uuid : Uuid

pub record Status : Type 0 where
  pub success : Bool
  pub stage : StatusStage
  pub operation : StatusOperation
  -- `HydraulicSimulationStatusProperty`, by its number: the adapter only copies it.
  pub property : ℕ
  pub entity : Entity
  pub message : String
  pub details : List String
  pub backend_name : String
  pub backend_error_code : ℤ
  pub backend_operation : String
  pub message_backend : String

pub record Diagnostic : Type 0 where
  pub severity : DiagnosticSeverity
  pub stage : StatusStage
  pub operation : StatusOperation
  pub property : ℕ
  pub entity : Entity
  pub message : String
  pub details : List String
  pub backend_name : String
  pub backend_error_code : ℤ
  pub backend_operation : String
  pub message_backend : String

-- What the adapter takes from outside the repository.
pub record Externals : Type 0 where
  -- A default-constructed `HydraulicSimulationStatus` and `HydraulicSimulationDiagnostic`.
  pub default_status : Status
  pub default_diagnostic : Diagnostic
  -- `EN_geterror`: its return code and the text that it writes.
  pub get_error : ℤ → ℤ × String
  -- `QString::arg` of a number, and `QUuid::toString(WithoutBraces)`.
  pub number_text : ℤ → String
  pub uuid_text : Uuid → String
  -- `QString::trimmed`, and `contains` without regard to case.
  pub trimmed : String → String
  pub contains_ignoring_case : String → String → Bool
