-- ===== src/ReportCollector.antt =====
-- src/lib/internal/epanet_report_collector.{h,cpp}: the lines that the Toolkit's report callback
-- receives, and the header that every quality run starts from.
use aowis_server_epanet.Base.{String, List, [], ◌∷◌, ◌++◌, Option, none, some}

pub record ReportCollector : Type 0 where
  pub report_header_lines : List String
  pub report_lines : List String

abbrev pub preserve_header : ReportCollector → ReportCollector
preserve_header c = record c { report_header_lines = c.report_lines }

abbrev pub restart_from_header : ReportCollector → ReportCollector
restart_from_header c = record c { report_lines = c.report_header_lines }

-- `none` is a null pointer.
abbrev pub callback : Option String → ReportCollector → ReportCollector
callback none c = c
callback (some line) c = record c { report_lines = c.report_lines ++ line ∷ [] }
