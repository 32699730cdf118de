-- ===== src/Hydraulics/FlowBalance.antt =====
-- The flow-balance part of src/lib/internal/epanet_hydraulic_solver.cpp.
use aowis_server_epanet.Base.{List, [], ◌∷◌, if◌then◌else◌}
use aowis_server_epanet.Model.Doubles.{Doubles, ◌⊕◌, ◌⊖◌, ◌⊗◌, ◌⊘◌, nought, le}
use aowis_server_epanet.Model.Results.{HydraulicResult, JunctionResult, StorageResult}

-- FlowBalanceAccumulator; the totals of one result have the same fields but the first.
pub record FlowBalanceAccumulator (D : Type 0) : Type 0 where
  pub covered_seconds : D
  pub total_inflow : D
  pub total_outflow : D
  pub consumer_demand : D
  pub demand_deficit : D
  pub emitter_flow : D
  pub leakage_flow : D
  pub storage_flow : D

module _ {D : Type 0} ⦃ops : Doubles D⦄ where
  abbrev pub new_flow_accumulator : FlowBalanceAccumulator D
  new_flow_accumulator = record {
    covered_seconds = nought;
    total_inflow = nought;
    total_outflow = nought;
    consumer_demand = nought;
    demand_deficit = nought;
    emitter_flow = nought;
    leakage_flow = nought;
    storage_flow = nought;
  }

  add_junctions : List (JunctionResult D) → FlowBalanceAccumulator D → FlowBalanceAccumulator D
  add_junctions [] t = t
  add_junctions (j ∷ js) t =
      let delivered = j.demand_delivered_m3_per_h in
      let feeds = ops.lt delivered nought in
      add_junctions js (record t {
        total_inflow = if feeds then t.total_inflow ⊖ delivered else t.total_inflow;
        consumer_demand = if feeds then t.consumer_demand else t.consumer_demand ⊕ delivered;
        emitter_flow = t.emitter_flow ⊕ j.emitter_flow_m3_per_h;
        leakage_flow = t.leakage_flow ⊕ j.leakage_flow_m3_per_h;
        total_outflow =
            (if feeds then t.total_outflow else t.total_outflow ⊕ delivered)
            ⊕ j.emitter_flow_m3_per_h
            ⊕ j.leakage_flow_m3_per_h;
        demand_deficit = t.demand_deficit ⊕ j.demand_deficit_m3_per_h;
      })

  add_reservoirs : List (StorageResult D) → FlowBalanceAccumulator D → FlowBalanceAccumulator D
  add_reservoirs [] t = t
  add_reservoirs (r ∷ rs) t =
      let net = r.net_demand_m3_per_h in
      let takes = le nought net in
      add_reservoirs rs (record t {
        total_outflow = if takes then t.total_outflow ⊕ net else t.total_outflow;
        total_inflow = if takes then t.total_inflow else t.total_inflow ⊖ net;
      })

  add_tanks : List (StorageResult D) → FlowBalanceAccumulator D → FlowBalanceAccumulator D
  add_tanks [] t = t
  add_tanks (k ∷ ks) t =
      add_tanks ks (record t { storage_flow = t.storage_flow ⊕ k.net_demand_m3_per_h })

  -- accumulateFlowBalance
  unfoldable pub accumulate_flow_balance :
      HydraulicResult D → D → FlowBalanceAccumulator D → FlowBalanceAccumulator D
  unfolding add_junctions add_reservoirs add_tanks
  accumulate_flow_balance result seconds a =
      let t = add_tanks result.nodes_tanks (
        add_reservoirs result.nodes_reservoirs
          (add_junctions result.nodes_junctions new_flow_accumulator)) in
      record {
        covered_seconds = a.covered_seconds ⊕ seconds;
        total_inflow = a.total_inflow ⊕ t.total_inflow ⊗ seconds;
        total_outflow = a.total_outflow ⊕ t.total_outflow ⊗ seconds;
        consumer_demand = a.consumer_demand ⊕ t.consumer_demand ⊗ seconds;
        demand_deficit = a.demand_deficit ⊕ t.demand_deficit ⊗ seconds;
        emitter_flow = a.emitter_flow ⊕ t.emitter_flow ⊗ seconds;
        leakage_flow = a.leakage_flow ⊕ t.leakage_flow ⊗ seconds;
        storage_flow = a.storage_flow ⊕ t.storage_flow ⊗ seconds;
      }

  -- The ratio of storeFlowBalance, from the averages.
  balance_ratio : D → D → D → D → D
  balance_ratio inflow outflow storage ratio =
      let fills = ops.lt nought storage in
      let adjusted_outflow = if fills then outflow ⊕ storage else outflow in
      let adjusted_inflow = if fills then inflow else inflow ⊖ storage in
      if ops.eq adjusted_inflow adjusted_outflow
      then ops.of_ℕ 1
      else if ops.lt nought adjusted_inflow
      then adjusted_outflow ⊘ adjusted_inflow
      else ratio

  -- storeFlowBalance
  unfoldable pub store_flow_balance :
      FlowBalanceAccumulator D → HydraulicResult D → HydraulicResult D
  unfolding balance_ratio
  store_flow_balance a result =
      let inflow = a.total_inflow ⊘ a.covered_seconds in
      let outflow = a.total_outflow ⊘ a.covered_seconds in
      let storage = a.storage_flow ⊘ a.covered_seconds in
      if le a.covered_seconds nought then result else record result {
        flow_balance = record {
          total_inflow_m3_per_h = inflow;
          total_outflow_m3_per_h = outflow;
          consumer_demand_m3_per_h = a.consumer_demand ⊘ a.covered_seconds;
          demand_deficit_m3_per_h = a.demand_deficit ⊘ a.covered_seconds;
          emitter_flow_m3_per_h = a.emitter_flow ⊘ a.covered_seconds;
          leakage_flow_m3_per_h = a.leakage_flow ⊘ a.covered_seconds;
          storage_flow_m3_per_h = storage;
          flow_balance_ratio =
              balance_ratio inflow outflow storage result.flow_balance.flow_balance_ratio;
        };
      }
