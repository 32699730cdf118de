-- ===== src/Executor/Report.antt =====
-- generateReport: EN_report, the lines that its callback has collected, and the diagnostics of both.
use aowis_server_epanet.Base.{String, List, if◌then◌else◌, length, drop, pos, eqb_ℤ}
use aowis_server_epanet.Model.Enums.{StatusStage, StatusOperation, StatusEntityType}
use aowis_server_epanet.Model.Status.{Status, Diagnostic, Externals, null_uuid}
use aowis_server_epanet.Project.{Project}
use aowis_server_epanet.StatusHelpers.{make_epanet_success, process_epanet_return_code}
use aowis_server_epanet.Diagnostics.{
  epanet_diagnostic_from_status, append_epanet_diagnostic_if_unique,
  append_epanet_report_diagnostics, checkpoint, append_since,
}
use aowis_server_epanet.Executor.{ExecutorBackend}

module _ {W D R : Type 0} (b : ExecutorBackend W D R) where
  -- `reportCollector().lines()`
  abbrev pub report_lines_of : Project W → List String
  report_lines_of p = (b.collector p.native).report_lines

  -- The status, the report lines, the diagnostics and the project.
  unfoldable pub generate_report :
      ⦃ext : Externals⦄
      → Project W
      → List Diagnostic
      → Status × List String × List Diagnostic × Project W
  generate_report p diagnostics =
      let start = length (report_lines_of p) in
      let seen = checkpoint p.diagnostics_collected in
      let (error, w) = b.report p.native in
      let q = record p { native = w } in
      let lines = report_lines_of q in
      let (processed, q') =
        process_epanet_return_code q error StatusStage.generate_report
          StatusOperation.generate_report "EN_report" StatusEntityType.report "" null_uuid
          "Failed to generate EPANET report" in
      let status = if eqb_ℤ error (pos 0) then make_epanet_success else processed in
      let project = if eqb_ℤ error (pos 0) then q else q' in
      let failed =
        if status.success
        then diagnostics
        else append_epanet_diagnostic_if_unique diagnostics
            (epanet_diagnostic_from_status status) in
      (
        status,
        lines,
        append_epanet_report_diagnostics (append_since seen failed project.diagnostics_collected)
            (drop start lines),
        project,
      )
