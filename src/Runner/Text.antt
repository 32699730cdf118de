-- ===== src/Runner/Text.antt =====
-- The report text of a run: a section for hydraulics and one for every quality run that has something
-- of its own to report.
use Prim.Native.String.{◌++◌}
use mathlib.Core.List
use aowis_server_epanet.Base.{
  ℕ, suc, String, not, List, [], ◌∷◌, map, ◌==◌, str_eq, if◌then◌else◌, same, drop, is_empty,
}
use aowis_server_epanet.Model.Enums.{WaterQualityAnalysisType}
use aowis_server_epanet.Model.Status.{Uuid, Externals, null_uuid}
use aowis_server_epanet.Model.Network.{Network, Junction, Node}
use aowis_server_epanet.Model.Run.{
  EpanetRunState, EpanetRunState-discrete, EpanetQualityResult, EpanetResultRun,
}
use aowis_server_epanet.Validation.Whole.{QualityOptions}

-- QStringList::join
unfoldable pub join : String → List String → String
join separator [] = ""
join separator (text ∷ []) = text
join separator (text ∷ next ∷ texts) = text ++ (separator ++ join separator (next ∷ texts))

-- sharedReportPrefixSize; the loop ends at the end of the shorter list or at the first difference.
unfoldable pub shared_report_prefix_size : List String → List String → ℕ
shared_report_prefix_size [] second = 0
shared_report_prefix_size (line ∷ first) [] = 0
shared_report_prefix_size (line ∷ first) (other ∷ second) =
    if not (str_eq line other) then 0 else suc (shared_report_prefix_size first second)

-- nodeIdForUuid
unfoldable pub node_id_for_uuid : {N : Type 0} → (N → Uuid) → (N → String) → List N → Uuid → String
node_id_for_uuid uuid_of id_of [] uuid = ""
node_id_for_uuid uuid_of id_of (node ∷ nodes) uuid =
    if uuid_of node == uuid then id_of node else node_id_for_uuid uuid_of id_of nodes uuid

abbrev or_else : String → String → String
or_else first second = if str_eq first "" then second else first

module _ {D : Type 0} ⦃ext : Externals⦄ where
  -- traceNodeLabel
  unfoldable pub trace_node_label : Network D → Uuid → String
  trace_node_label network uuid =
      let node_id =
        or_else
          (or_else
            (node_id_for_uuid (λ (n : Junction D). n.uuid) (λ n. n.id) network.nodes_junctions uuid)
            (node_id_for_uuid (λ (n : Node). n.uuid) (λ n. n.id) network.nodes_reservoirs uuid))
          (node_id_for_uuid (λ (n : Node). n.uuid) (λ n. n.id) network.nodes_tanks uuid) in
      if uuid == null_uuid
      then "not set"
      else if not (str_eq node_id "")
      then node_id
      else "unresolved UUID " ++ ext.uuid_text uuid

  -- qualitySectionHeading, for the analysis
  unfoldable pub heading_of : QualityOptions D → Network D → WaterQualityAnalysisType → String
  heading_of options network WaterQualityAnalysisType.chemical =
      if not (str_eq options.chemical_name "")
      then "=== Water quality: Chemical (" ++ (options.chemical_name ++ ") ===")
      else "=== Water quality: Chemical ==="
  heading_of options network WaterQualityAnalysisType.water_age = "=== Water quality: Water age ==="
  heading_of options network WaterQualityAnalysisType.source_trace =
      "=== Water quality: Source trace (origin: "
      ++ (trace_node_label network options.trace_node_uuid ++ ") ===")
  heading_of options network WaterQualityAnalysisType.none = "=== Water quality: None ==="

  abbrev pub quality_section_heading : QualityOptions D → Network D → String
  quality_section_heading options network = heading_of options network options.analysis

module _ {D R : Type 0} where
  -- qualityRunStatusText
  unfoldable pub quality_run_status_text : EpanetQualityResult D R → String
  quality_run_status_text q =
      let status = q.result_timeline.status in
      let error_line =
        "ERROR: "
        ++ (if str_eq status.message "" then "The water-quality run failed." else status.message) in
      let backend_lines =
        if str_eq status.message_backend ""
        then []
        else ("EPANET error: " ++ status.message_backend) ∷ [] in
      if not status.success
      then join "\n"
          (error_line ∷ List.◌++◌ backend_lines (map (λ detail. "  - " ++ detail) status.details))
      else if same EpanetRunState-discrete q.state EpanetRunState.cancelled
      then "CANCELLED: The water-quality run was cancelled."
      else if same EpanetRunState-discrete q.state EpanetRunState.skipped
      then "SKIPPED: The water-quality run was not executed."
      else ""

  -- The lines of a quality run's section: those after the header that hydraulics have reported too.
  unfoldable pub quality_section_body : List String → EpanetQualityResult D R → List String
  quality_section_body hydraulic_lines q =
      let own = drop (shared_report_prefix_size hydraulic_lines q.report_lines) q.report_lines in
      let status_text = quality_run_status_text q in
      if str_eq status_text "" then own else List.◌++◌ own (status_text ∷ [])

  module _ ⦃ext : Externals⦄ where
    -- The sections of the quality runs.
    unfoldable pub quality_sections :
        List String → Network D → List (EpanetQualityResult D R) → List String
    quality_sections hydraulic_lines network [] = []
    quality_sections hydraulic_lines network (q ∷ qs) =
        let body = quality_section_body hydraulic_lines q in
        let rest = quality_sections hydraulic_lines network qs in
        if is_empty body
        then rest
        else (quality_section_heading q.options network ++ ("\n\n" ++ join "\n" body)) ∷ rest

    -- finalizeReportText
    unfoldable pub finalize_report_text :
        {M : Type 0} → EpanetResultRun D R M → Network D → EpanetResultRun D R M
    finalize_report_text result network =
        let hydraulic_sections =
          if is_empty result.report_lines
          then []
          else ("=== Hydraulics ===\n\n" ++ join "\n" result.report_lines) ∷ [] in
        record result {
          quality_results =
              map
                (λ (q : EpanetQualityResult D R). record q {
                  report_text = join "\n" q.report_lines;
                })
                result.quality_results;
          report_text = join "\n\n" (
              List.◌++◌ hydraulic_sections
                (quality_sections result.report_lines network result.quality_results));
        }
