-- ===== src/Model/Results.antt =====
-- `HydraulicSimulationResult` of the model library: the fields that the solver reads or writes.
use aowis_server_epanet.Base.{ℕ, String, List}
use aowis_server_epanet.Model.Status.{Uuid}

-- HydraulicSimulationTimestepEventType
pub data EventType : Type 0 where
  hydraulic_step quality_step report_step tank_event control_event : EventType

pub record EventNext : Type 0 where
  pub type : EventType
  pub tank_id : String
  pub tank_uuid : Uuid
  pub control_id : String
  pub control_uuid : Uuid
  pub time_until_event_s : ℕ

module _ (D : Type 0) where
  pub record JunctionResult : Type 0 where
    pub demand_delivered_m3_per_h : D
    pub emitter_flow_m3_per_h : D
    pub leakage_flow_m3_per_h : D
    pub demand_deficit_m3_per_h : D

  -- A reservoir's or a tank's result.
  pub record StorageResult : Type 0 where
    pub net_demand_m3_per_h : D

  pub record PumpResult : Type 0 where
    pub efficiency_percent : D
    pub power_kw : D
    pub flow_m3_per_h : D

  -- HydraulicSimulationResultLinkPumpEnergyUsage
  pub record PumpEnergyUsage : Type 0 where
    pub pump_id : String
    pub pump_uuid : Uuid
    pub currency_iso4217 : String
    pub time_online_percent : D
    pub average_efficiency_percent : D
    pub average_energy_intensity_kw_h_per_m3 : D
    pub average_power_kw : D
    pub peak_power_kw : D
    pub average_cost_per_day : D

  pub record EnergyUsage : Type 0 where
    pub currency_iso4217 : String
    pub energy_cost_per_day : D
    pub peak_power_kw : D
    pub demand_charge_per_day : D
    pub total_cost_per_day : D

  pub record FlowBalance : Type 0 where
    pub total_inflow_m3_per_h : D
    pub total_outflow_m3_per_h : D
    pub consumer_demand_m3_per_h : D
    pub demand_deficit_m3_per_h : D
    pub emitter_flow_m3_per_h : D
    pub leakage_flow_m3_per_h : D
    pub storage_flow_m3_per_h : D
    pub flow_balance_ratio : D

  pub record HydraulicResult : Type 0 where
    pub time_elapsed_s : ℕ
    pub event_next : EventNext
    pub nodes_junctions : List JunctionResult
    pub nodes_reservoirs : List StorageResult
    pub nodes_tanks : List StorageResult
    pub links_pumps : List PumpResult
    pub links_pump_energy_usage : List PumpEnergyUsage
    pub energy_usage : EnergyUsage
    pub flow_balance : FlowBalance
