-- ===== src/Project.antt =====
-- src/lib/internal/epanet_project.{h,cpp}: the wrapper of one native project and the diagnostics
-- that it collects. `W` is the state of the native Toolkit behind the project's handle.
pub mod Lifecycle
use Prim.Native.String.{◌++◌}
use aowis_server_epanet.Base.{Bool, ℤ, pos, eqb_ℤ, String, List, [], ◌∷◌, if◌then◌else◌}
use aowis_server_epanet.Model.Status.{Diagnostic, Externals}
use mathlib.Core.List

pub record Project (W : Type 0) : Type 0 where
  pub native : W
  -- `project != nullptr`.
  pub created : Bool
  pub input_open : Bool
  pub diagnostics_collected : List Diagnostic

-- errorMessage
unfoldable pub error_message : ⦃ext : Externals⦄ → ℤ → String
error_message ⦃ext⦄ code =
    if eqb_ℤ code (pos 0)
    then ""
    else let (result, message) = ext.get_error code in
      if eqb_ℤ result (pos 0) then message else "Unknown EPANET error code " ++ ext.number_text code

-- appendDiagnostic
abbrev pub append_diagnostic : {W : Type 0} → Project W → Diagnostic → Project W
append_diagnostic p d = record p {
  diagnostics_collected = List.◌++◌ p.diagnostics_collected (d ∷ []);
}
