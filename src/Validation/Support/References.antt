-- ===== src/Validation/Support/References.antt =====
-- When a reference passes.
use aowis_server_epanet.Base.{String, ◌≡◌, ◌≢◌, ◌↔◌, ◌⊎◌, Bool, true, List, arith}
use aowis_server_epanet.Model.Enums.{StatusEntityType}
use aowis_server_epanet.Model.Status.{Uuid, null_uuid, Externals}
use aowis_server_epanet.StatusHelpers.{make_epanet_status, make_epanet_success}
use aowis_server_epanet.Validation.Support.{contains_uuid, validation_status, validate_reference}

module _ ⦃ext : Externals⦄ (all enabled : List Uuid) (target : Uuid) (type : StatusEntityType)
    (id : String) (uuid : Uuid) (relationship : String) (allow_null : Bool) where
  -- A reference passes exactly when it is null and may be, or names an entity that is there and
  -- enabled.
  pub validate_reference_iff :
      ((validate_reference all enabled target type id uuid relationship allow_null).success ≡ true)
      ↔ (((target ≡ null_uuid) × (allow_null ≡ true))
          ⊎ ((target ≢ null_uuid)
              × (contains_uuid all target ≡ true)
              × (contains_uuid enabled target ≡ true)))
  unfolding validate_reference make_epanet_success validation_status make_epanet_status
  validate_reference_iff = ground arith
