-- ===== src/Tests/Samples.antt =====
-- The concrete inputs of the tests.
use aowis_server_epanet.Base.{
  ℕ, ◌+◌, ◌-◌, ◌*◌, ◌/◌, String, true, false, List, [], ◌∷◌, ltb, ◌==◌, pos,
}
use aowis_server_epanet.Model.Enums.{
  StatusStage, StatusOperation, StatusEntityType, DiagnosticSeverity, WaterQualityAnalysisType,
}
use aowis_server_epanet.Model.Status.{Status, Diagnostic, Entity, Externals, Uuid, null_uuid}
use aowis_server_epanet.Model.Doubles.{Doubles}
use aowis_server_epanet.Model.Timelines.{
  HydraulicValidity, QualityValidity, HydraulicTimeline, QualityTimeline,
}
use aowis_server_epanet.Model.Network.{
  Network, Junction, Pump, PriceInputType, Valve, ValveType, TimePattern, ReportSelectionMode,
}
use aowis_server_epanet.Model.Results.{EventType, HydraulicResult, PumpEnergyUsage}
use aowis_server_epanet.Project.{Project}

abbrev pub blank_entity : Entity
blank_entity = record { type = StatusEntityType.none; id = ""; uuid = null_uuid }

abbrev pub blank_status : Status
blank_status = record {
  success = false;
  stage = StatusStage.none;
  operation = StatusOperation.none;
  property = 0;
  entity = blank_entity;
  message = "";
  details = [];
  backend_name = "";
  backend_error_code = pos 0;
  backend_operation = "";
  message_backend = "";
}

abbrev pub blank_diagnostic : Diagnostic
blank_diagnostic = record {
  severity = DiagnosticSeverity.information;
  stage = StatusStage.none;
  operation = StatusOperation.none;
  property = 0;
  entity = blank_entity;
  message = "";
  details = [];
  backend_name = "";
  backend_error_code = pos 0;
  backend_operation = "";
  message_backend = "";
}

abbrev pub unstable : Diagnostic
unstable = record blank_diagnostic {
  severity = DiagnosticSeverity.error;
  stage = StatusStage.run_hydraulics;
  message = "unstable";
}

abbrev pub late : Diagnostic
late = record blank_diagnostic {
  severity = DiagnosticSeverity.error;
  stage = StatusStage.close_hydraulics;
  message = "late";
}

instance abbrev pub sample_externals : Externals
sample_externals = record {
  default_status = blank_status;
  default_diagnostic = blank_diagnostic;
  get_error = λ code. (pos 0, "toolkit text");
  number_text = λ n. "n";
  uuid_text = λ u. "u";
  trimmed = λ s. s;
  contains_ignoring_case = λ s t. false;
}

-- Whole numbers in place of `double`.
instance abbrev pub whole_doubles : Doubles ℕ
whole_doubles = record {
  of_ℕ = λ n. n;
  add = λ a b. a + b;
  sub = λ a b. a - b;
  mul = λ a b. a * b;
  div = λ a b. a / b;
  abs = λ a. a;
  is_finite = λ a. true;
  lt = ltb;
  eq = λ a b. a == b;
  minimum_energy_flow = 1;
}

abbrev pub sample_junction : String → Uuid → Junction ℕ
sample_junction id uuid = record { id = id; uuid = uuid; enabled = true; demands = [] }

abbrev pub sample_valve : String → Uuid → Valve
sample_valve id uuid = record {
  id = id;
  uuid = uuid;
  enabled = true;
  type = ValveType.prv;
  node_uuid_from = 1;
  node_uuid_to = 2;
}

abbrev pub sample_pump : Pump ℕ
sample_pump = record {
  id = "PU";
  uuid = 6;
  enabled = true;
  energy_price_input_type = PriceInputType.global;
  energy_price_per_kw_h = 0;
  price_pattern_uuid = null_uuid;
}

abbrev pub other_pattern : TimePattern ℕ
other_pattern = record { id = "PA"; uuid = 7; multipliers = [] }

abbrev pub price_pattern : TimePattern ℕ
price_pattern = record { id = "PB"; uuid = 8; multipliers = 3 ∷ 5 ∷ [] }

abbrev pub sample_network : Network ℕ
sample_network = record {
  id = "N";
  uuid = 9;
  nodes_junctions = sample_junction "J1" 1 ∷ sample_junction "J2" 2 ∷ [];
  nodes_reservoirs = record { id = "R"; uuid = 3; enabled = true } ∷ [];
  nodes_tanks = [];
  links_pipes = [];
  links_pumps = sample_pump ∷ [];
  links_valves = sample_valve "V1" 4 ∷ sample_valve "V2" 5 ∷ [];
  patterns_time = other_pattern ∷ price_pattern ∷ [];
  curves_tank_volume = [];
  curves_pump_head = [];
  curves_pump_efficiency = [];
  curves_valve_headloss = [];
  curves_valve_characteristic = [];
  curves_generic = [];
  controls_simple = record { id = "C"; uuid = 10 } ∷ [];
  controls_rules = [];
  demand_points = [];
  options_energy = record {
    global_energy_price_per_kw_h = 2;
    global_energy_price_pattern_uuid = 8;
    currency_iso4217 = "EUR";
    demand_charge_per_kw = 4;
  };
  duration_s = 2;
  timestep_pattern_s = 1;
  start_pattern_s = 0;
  selection_nodes = record { mode = ReportSelectionMode.selected; uuids = 1 ∷ [] };
  selection_links = record { mode = ReportSelectionMode.none; uuids = [] };
}

abbrev pub sample_result : HydraulicResult ℕ
sample_result = record {
  time_elapsed_s = 0;
  event_next = record {
    type = EventType.hydraulic_step;
    tank_id = "";
    tank_uuid = null_uuid;
    control_id = "";
    control_uuid = null_uuid;
    time_until_event_s = 0;
  };
  nodes_junctions = [];
  nodes_reservoirs = [];
  nodes_tanks = [];
  links_pumps = record { efficiency_percent = 50; power_kw = 3; flow_m3_per_h = 2 } ∷ [];
  links_pump_energy_usage = [];
  energy_usage = record {
    currency_iso4217 = "";
    energy_cost_per_day = 0;
    peak_power_kw = 0;
    demand_charge_per_day = 0;
    total_cost_per_day = 0;
  };
  flow_balance = record {
    total_inflow_m3_per_h = 0;
    total_outflow_m3_per_h = 0;
    consumer_demand_m3_per_h = 0;
    demand_deficit_m3_per_h = 0;
    emitter_flow_m3_per_h = 0;
    leakage_flow_m3_per_h = 0;
    storage_flow_m3_per_h = 0;
    flow_balance_ratio = 0;
  };
}

abbrev pub sample_usage : PumpEnergyUsage ℕ
sample_usage = record {
  pump_id = "";
  pump_uuid = null_uuid;
  currency_iso4217 = "";
  time_online_percent = 0;
  average_efficiency_percent = 0;
  average_energy_intensity_kw_h_per_m3 = 0;
  average_power_kw = 0;
  peak_power_kw = 0;
  average_cost_per_day = 0;
}

abbrev pub sample_timeline :
    List (HydraulicResult ℕ) → List Diagnostic → HydraulicTimeline (HydraulicResult ℕ)
sample_timeline results diagnostics = record {
  simulation_start_utc = 0;
  status = blank_status;
  validity = HydraulicValidity.invalid;
  results = results;
  diagnostics = diagnostics;
}

abbrev pub quality_timeline : List ℕ → QualityTimeline ℕ
quality_timeline results = record {
  simulation_start_utc = 0;
  analysis = WaterQualityAnalysisType.water_age;
  status = blank_status;
  validity = QualityValidity.not_run;
  results = results;
  diagnostics = unstable ∷ [];
}

abbrev pub sample_project : {W : Type 0} → W → Project W
sample_project w = record {
  native = w;
  created = true;
  input_open = true;
  diagnostics_collected = [];
}
