-- ===== src/Diagnostics.antt =====
-- src/lib/internal/epanet_diagnostic_helpers.cpp: diagnostics made from statuses and from report
-- lines, and lists of diagnostics without repetitions.
pub mod Unique
pub mod Ranges
use aowis_server_epanet.Base.{
  ℕ, zero, suc, ◌+◌, ◌-◌, min, Bool, true, false, ◌&&◌, ℤ, pos, negsuc, ltb_ℤ, eqb_ℤ, String,
  str_eq, List, [], ◌∷◌, ◌++◌, none, some, length, get_elem?, any, same, if◌then◌else◌, ◌==◌,
}
use aowis_server_epanet.Model.Enums.{
  StatusStage, StatusOperation, StatusEntityType, DiagnosticSeverity, StatusStage-discrete,
  StatusOperation-discrete, StatusEntityType-discrete,
}
use aowis_server_epanet.Model.Status.{Status, Diagnostic, Externals}
use aowis_server_epanet.StatusHelpers.{diagnostic_of}

-- inferredSeverity
unfoldable pub inferred_severity : Status → DiagnosticSeverity
inferred_severity status =
    if ltb_ℤ (pos 0) status.backend_error_code && ltb_ℤ status.backend_error_code (pos 100)
    then DiagnosticSeverity.warning
    else DiagnosticSeverity.error

-- epanetDiagnosticFromStatus, with a severity and without.
unfoldable pub epanet_diagnostic_from_status_as : Status → DiagnosticSeverity → Diagnostic
unfolding diagnostic_of
epanet_diagnostic_from_status_as status severity = diagnostic_of status severity

unfoldable pub epanet_diagnostic_from_status : Status → Diagnostic
unfolding inferred_severity epanet_diagnostic_from_status_as
epanet_diagnostic_from_status status =
    epanet_diagnostic_from_status_as status (inferred_severity status)

-- `==` of two `QStringList`s.
unfoldable pub texts_eq : List String → List String → Bool
texts_eq [] [] = true
texts_eq [] (t ∷ ts) = false
texts_eq (s ∷ ss) [] = false
texts_eq (s ∷ ss) (t ∷ ts) = str_eq s t && texts_eq ss ts

-- epanetDiagnosticsEquivalent
unfoldable pub epanet_diagnostics_equivalent : Diagnostic → Diagnostic → Bool
unfolding texts_eq
epanet_diagnostics_equivalent left right =
    same StatusStage-discrete left.stage right.stage
    && same StatusOperation-discrete left.operation right.operation
    && left.entity.uuid == right.entity.uuid
    && same StatusEntityType-discrete left.entity.type right.entity.type
    && eqb_ℤ left.backend_error_code right.backend_error_code
    && str_eq left.backend_operation right.backend_operation
    && str_eq left.message right.message
    && texts_eq left.details right.details
    && str_eq left.message_backend right.message_backend

-- appendEpanetDiagnosticIfUnique
unfoldable pub append_epanet_diagnostic_if_unique : List Diagnostic → Diagnostic → List Diagnostic
append_epanet_diagnostic_if_unique diagnostics diagnostic =
    if any (λ existing. epanet_diagnostics_equivalent existing diagnostic) diagnostics
    then diagnostics
    else diagnostics ++ diagnostic ∷ []

-- The loop of appendEpanetDiagnostics over the indices from `index`, with the rounds left.
unfoldable pub append_range : ℕ → ℕ → List Diagnostic → List Diagnostic → List Diagnostic
unfolding append_epanet_diagnostic_if_unique
append_range zero index target source = target
append_range (suc rounds) index target source =
    append_range rounds (index + 1)
      (elim (get_elem? source index) [
        | none ↦ target
        | some diagnostic ↦ append_epanet_diagnostic_if_unique target diagnostic
      ])
      source

-- The index that `qMax(0, begin_index)` gives.
abbrev bounded_begin : ℤ → ℕ
bounded_begin (pos n) = n
bounded_begin (negsuc n) = 0

-- `qMin(source.size(), requested_end)`, where a negative `end_index` stands for the size.
abbrev bounded_end : ℕ → ℤ → ℕ
bounded_end size (pos n) = min size n
bounded_end size (negsuc n) = size

-- appendEpanetDiagnostics
unfoldable pub append_epanet_diagnostics_range :
    List Diagnostic → List Diagnostic → ℤ → ℤ → List Diagnostic
unfolding append_range
append_epanet_diagnostics_range target source begin_index end_index =
    append_range (bounded_end (length source) end_index - bounded_begin begin_index)
      (bounded_begin begin_index) target source

-- appendEpanetDiagnostics with its default range: begin 0, end -1.
unfoldable pub append_epanet_diagnostics : List Diagnostic → List Diagnostic → List Diagnostic
unfolding append_epanet_diagnostics_range
append_epanet_diagnostics target source =
    append_epanet_diagnostics_range target source (pos 0) (negsuc 0)

module _ ⦃ext : Externals⦄ where
  report_diagnostic : DiagnosticSeverity → String → Diagnostic
  report_diagnostic severity text = record ext.default_diagnostic {
    severity = severity;
    stage = StatusStage.generate_report;
    operation = StatusOperation.generate_report;
    entity = record ext.default_diagnostic.entity { type = StatusEntityType.report };
    message = text;
    backend_name = "EPANET";
    backend_operation = "report callback";
  }

  -- One line of appendEpanetReportDiagnostics, trimmed.
  append_report_line : List Diagnostic → String → List Diagnostic
  unfolding report_diagnostic append_epanet_diagnostic_if_unique
  append_report_line diagnostics text =
      if str_eq text ""
      then diagnostics
      else if ext.contains_ignoring_case text "ERROR"
      then append_epanet_diagnostic_if_unique diagnostics
          (report_diagnostic DiagnosticSeverity.error text)
      else if ext.contains_ignoring_case text "WARNING"
      then append_epanet_diagnostic_if_unique diagnostics
          (report_diagnostic DiagnosticSeverity.warning text)
      else diagnostics

  -- appendEpanetReportDiagnostics
  unfoldable pub append_epanet_report_diagnostics : List Diagnostic → List String → List Diagnostic
  unfolding append_report_line
  append_epanet_report_diagnostics diagnostics [] = diagnostics
  append_epanet_report_diagnostics diagnostics (line ∷ lines) =
      append_epanet_report_diagnostics (append_report_line diagnostics (ext.trimmed line)) lines

-- EpanetDiagnosticCheckpoint: the number of diagnostics at its construction.
pub record Checkpoint : Type 0 where
  pub index : ℕ

unfoldable pub checkpoint : List Diagnostic → Checkpoint
checkpoint diagnostics = record { index = length diagnostics }

-- appendSince
unfoldable pub append_since : Checkpoint → List Diagnostic → List Diagnostic → List Diagnostic
unfolding append_epanet_diagnostics_range
append_since c target source =
    append_epanet_diagnostics_range target source (pos c.index) (pos (length source))
