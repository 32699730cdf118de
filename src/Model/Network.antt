-- ===== src/Model/Network.antt =====
-- `NetworkHydraulic` of the model library: the entities and options that the modelled parts of the
-- adapter read. `D` is the type of a `double`; `metadata.enabled` is the field `enabled`.
use aowis_server_epanet.Base.{ℕ, String, Bool, List}
use aowis_server_epanet.Model.Status.{Uuid}

-- HydraulicNodeReservoir, HydraulicNodeTank
pub record Node : Type 0 where
  pub id : String
  pub uuid : Uuid
  pub enabled : Bool

-- HydraulicTimePatternMode
pub data PatternMode : Type 0 where
  constant time_pattern : PatternMode

unfoldable pub PatternMode-discrete : Discrete PatternMode
PatternMode-discrete = hlevel

-- HydraulicDemand
pub record Demand (D : Type 0) : Type 0 where
  pub category_name : String
  pub pattern_mode : PatternMode
  pub pattern_uuid : Uuid
  pub base_demand_m3_per_h : D

-- HydraulicNodeJunction
pub record Junction (D : Type 0) : Type 0 where
  pub id : String
  pub uuid : Uuid
  pub enabled : Bool
  pub demands : List (Demand D)

-- HydraulicLinkPipe
pub record Pipe : Type 0 where
  pub id : String
  pub uuid : Uuid
  pub enabled : Bool
  pub node_uuid_from : Uuid
  pub node_uuid_to : Uuid

-- HydraulicLinkPumpEnergyPriceInputType
pub data PriceInputType : Type 0 where
  global constant pattern_price : PriceInputType

pub PriceInputType-discrete : Discrete PriceInputType
PriceInputType-discrete = hlevel

-- HydraulicLinkPump
pub record Pump (D : Type 0) : Type 0 where
  pub id : String
  pub uuid : Uuid
  pub enabled : Bool
  pub energy_price_input_type : PriceInputType
  pub energy_price_per_kw_h : D
  pub price_pattern_uuid : Uuid

-- HydraulicLinkValveType
pub data ValveType : Type 0 where
  prv psv pbv fcv tcv pcv gpv : ValveType

pub ValveType-discrete : Discrete ValveType
ValveType-discrete = hlevel

-- HydraulicLinkValve
pub record Valve : Type 0 where
  pub id : String
  pub uuid : Uuid
  pub enabled : Bool
  pub type : ValveType
  pub node_uuid_from : Uuid
  pub node_uuid_to : Uuid

-- HydraulicPatternTime
pub record TimePattern (D : Type 0) : Type 0 where
  pub id : String
  pub uuid : Uuid
  pub multipliers : List D

-- The curves, HydraulicControlSimple and HydraulicControlRule, by what names them.
pub record Named : Type 0 where
  pub id : String
  pub uuid : Uuid

-- HydraulicDemandPointAttachmentType
pub data AttachmentType : Type 0 where
  none junction pipe : AttachmentType

-- HydraulicDemandPointPipeAllocationMode
pub data AllocationMode : Type 0 where
  assigned_junction interpolate_by_position : AllocationMode

pub record Attachment (D : Type 0) : Type 0 where
  pub type : AttachmentType
  pub junction_uuid : Uuid
  pub pipe_uuid : Uuid
  pub pipe_position : D
  pub pipe_allocation_mode : AllocationMode
  pub pipe_assigned_junction_uuid : Uuid

-- HydraulicDemandPoint
pub record DemandPoint (D : Type 0) : Type 0 where
  pub id : String
  pub uuid : Uuid
  pub enabled : Bool
  pub demands : List (Demand D)
  pub attachment : Attachment D

pub record EnergyOptions (D : Type 0) : Type 0 where
  pub global_energy_price_per_kw_h : D
  pub global_energy_price_pattern_uuid : Uuid
  pub currency_iso4217 : String
  pub demand_charge_per_kw : D

-- HydraulicSimulationReportSelection and its mode
pub data ReportSelectionMode : Type 0 where
  none all selected : ReportSelectionMode

unfoldable pub ReportSelectionMode-discrete : Discrete ReportSelectionMode
ReportSelectionMode-discrete = hlevel

pub record ReportSelection : Type 0 where
  pub mode : ReportSelectionMode
  pub uuids : List Uuid

-- NetworkHydraulic; the selections are those of `options_report`.
pub record Network (D : Type 0) : Type 0 where
  pub id : String
  pub uuid : Uuid
  pub nodes_junctions : List (Junction D)
  pub nodes_reservoirs : List Node
  pub nodes_tanks : List Node
  pub links_pipes : List Pipe
  pub links_pumps : List (Pump D)
  pub links_valves : List Valve
  pub patterns_time : List (TimePattern D)
  pub curves_tank_volume : List Named
  pub curves_pump_head : List Named
  pub curves_pump_efficiency : List Named
  pub curves_valve_headloss : List Named
  pub curves_valve_characteristic : List Named
  pub curves_generic : List Named
  pub controls_simple : List Named
  pub controls_rules : List Named
  pub demand_points : List (DemandPoint D)
  pub options_energy : EnergyOptions D
  pub duration_s : ℕ
  pub timestep_pattern_s : ℕ
  pub start_pattern_s : ℕ
  pub selection_nodes : ReportSelection
  pub selection_links : ReportSelection
