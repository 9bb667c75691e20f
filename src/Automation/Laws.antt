-- ===== src/Automation/Laws.antt =====
-- The valid states of src/experiment/automation.py.
use carla.Prelude.{◌≡◌}
use carla.Automation.{available, noa_active, AutomationState}

-- The states that the constructor accepts.
abbrev pub IsValid : AutomationState → Type 0
IsValid s = s.control_mode ≡ noa_active → s.availability ≡ available
