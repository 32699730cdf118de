-- ===== src/Validation/Numbers.antt =====
-- The numeric checks of src/lib/internal/epanet_network_validator_support.cpp. A comparison with NaN
-- is false, and each check asks for a finite value first.
use Prim.Native.String.{◌++◌ as append}
use aowis_server_epanet.Base.{String, Bool, ◌&&◌, [], ◌∷◌, if◌then◌else◌}
use aowis_server_epanet.Model.Enums.{StatusOperation, StatusEntityType}
use aowis_server_epanet.Model.Status.{Uuid, Status, Externals}
use aowis_server_epanet.Model.Doubles.{Doubles, nought, le, ◌⊖◌}
use aowis_server_epanet.StatusHelpers.{make_epanet_success}
use aowis_server_epanet.Validation.Support.{validation_status}

-- numericValidationOperation
pub numeric_validation_operation : StatusEntityType → StatusOperation
numeric_validation_operation StatusEntityType.pattern = StatusOperation.add_pattern
numeric_validation_operation StatusEntityType.curve = StatusOperation.add_curve
numeric_validation_operation StatusEntityType.hydraulic_solver =
    StatusOperation.configure_hydraulics
numeric_validation_operation StatusEntityType.quality_solver = StatusOperation.configure_quality
numeric_validation_operation StatusEntityType.report = StatusOperation.configure_report
numeric_validation_operation StatusEntityType.control = StatusOperation.add_control
numeric_validation_operation StatusEntityType.rule = StatusOperation.add_rule
numeric_validation_operation _ = StatusOperation.set_entity_metadata

module _ ⦃ext : Externals⦄ where
  -- invalidNumeric
  unfoldable pub invalid_numeric : StatusEntityType → String → Uuid → String → String → Status
  unfolding validation_status
  invalid_numeric entity_type entity_id entity_uuid field_name requirement =
      validation_status (numeric_validation_operation entity_type) entity_type entity_id entity_uuid
        (append entity_id " contains an invalid numeric value")
        (append field_name (append ": " requirement) ∷ [])

  module _ {D : Type 0} ⦃ops : Doubles D⦄ (value : D) (entity_type : StatusEntityType)
      (entity_id : String) (entity_uuid : Uuid) (field_name : String) where
    abbrev require : Bool → String → Status
    require good requirement =
        if good
        then make_epanet_success
        else invalid_numeric entity_type entity_id entity_uuid field_name requirement

    -- validateFinite
    unfoldable pub validate_finite : Status
    validate_finite = require (ops.is_finite value) "must be finite"

    -- validateLongitudeDeg
    unfoldable pub validate_longitude_deg : Status
    validate_longitude_deg =
        require (ops.is_finite value && le (nought ⊖ ops.of_ℕ 180) value && le value (ops.of_ℕ 180))
          "must be finite and between -180 and 180 degrees"

    -- validateLatitudeDeg
    unfoldable pub validate_latitude_deg : Status
    validate_latitude_deg =
        require (ops.is_finite value && le (nought ⊖ ops.of_ℕ 90) value && le value (ops.of_ℕ 90))
          "must be finite and between -90 and 90 degrees"

    -- validateFiniteNonNegative
    unfoldable pub validate_finite_non_negative : Status
    validate_finite_non_negative =
        require (ops.is_finite value && le nought value) "must be finite and non-negative"

    -- validateFinitePositive
    unfoldable pub validate_finite_positive : Status
    validate_finite_positive =
        require (ops.is_finite value && ops.lt nought value) "must be finite and positive"
