-- ===== src/Model/Enums.antt =====
-- The enumerations of the hydraulic model library that the adapter's sources name
-- (`aowis/model/hydraulic/*.h`, a library outside this repository), with the enumerators that
-- src/lib uses. Enumerators share names across types, so they are written behind their type.

-- HydraulicSimulationStatusStage
pub data StatusStage : Type 0 where
  add_control add_curve add_junction add_pattern add_pipe add_pump add_reservoir add_rule add_tank
        add_valve build_network cleanup close_hydraulics close_quality configure_options
        create_backend_context generate_report initialize_simulation none open_input read_input
        read_junction_results read_next_event read_pipe_results read_pump_results
        read_reservoir_results read_results read_statistics read_tank_results read_valve_results
        run_hydraulics run_quality save_hydraulics :
      StatusStage

pub StatusStage-discrete : Discrete StatusStage
StatusStage-discrete = hlevel

-- HydraulicSimulationStatusOperation
pub data StatusOperation : Type 0 where
  add_control add_curve add_demand add_link add_node add_pattern add_rule advance_hydraulics
        close_hydraulics close_multi_species close_quality configure_hydraulics
        configure_multi_species configure_quality configure_report configure_time
        create_backend_context generate_report initialize initialize_hydraulics
        initialize_multi_species initialize_quality none open_hydraulics open_input
        open_multi_species open_quality read_input read_link_result read_next_event read_node_result
        read_statistic resolve_entity run_hydraulics run_multi_species run_quality save_hydraulics
        set_entity_geometry set_entity_metadata step_multi_species step_quality :
      StatusOperation

pub StatusOperation-discrete : Discrete StatusOperation
StatusOperation-discrete = hlevel

-- HydraulicSimulationStatusEntityType
pub data StatusEntityType : Type 0 where
  control curve demand_point hydraulic_solver junction link multi_species_solver network node none
        pattern pipe project pump quality_solver report reservoir result rule tank valve :
      StatusEntityType

pub StatusEntityType-discrete : Discrete StatusEntityType
StatusEntityType-discrete = hlevel

-- HydraulicSimulationDiagnosticSeverity
pub data DiagnosticSeverity : Type 0 where
  error fatal information warning : DiagnosticSeverity

pub DiagnosticSeverity-discrete : Discrete DiagnosticSeverity
DiagnosticSeverity-discrete = hlevel

-- WaterQualityAnalysisType
pub data WaterQualityAnalysisType : Type 0 where
  chemical none source_trace water_age : WaterQualityAnalysisType

pub WaterQualityAnalysisType-discrete : Discrete WaterQualityAnalysisType
WaterQualityAnalysisType-discrete = hlevel
