-- ===== src/Context.antt =====
-- src/experiment/context.py: the modules and conditions of the experiment, and the exceptions that
-- the modelled methods raise.
use carla.Prelude.{String}
use carla.Automation.{AutomationStateTransitionError}

pub data ExperimentModule : Type 0 where
  module_1 module_2 : ExperimentModule

-- `Module1Condition | Module2Condition`, the latter's `MANUAL` and `NOA_L2` in lower case.
pub data ExperimentCondition : Type 0 where
  no_surt surt manual noa_l2 : ExperimentCondition

pub data Fault : Type 0 where
  state_transition : AutomationStateTransitionError → Fault
  interaction_condition : ExperimentModule → ExperimentCondition → Fault
  exit_presentation : String → Fault
  -- Raised by an object that was passed in.
  external : String → Fault
