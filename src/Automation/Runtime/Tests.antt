-- ===== src/Automation/Runtime/Tests.antt =====
-- The runtime controller over a backend that counts the transitions and may refuse the automation.
use carla.Prelude.{ℕ, ◌+◌, Bool, true, false, ◌≡◌, refl, if◌then◌else◌}
use carla.Exec.{ok, err}
use carla.Context.{external, state_transition}
use carla.Automation.{
  unavailable, available, manual, noa_active, set_driving_control_mode, set_automation_availability,
}
use carla.Automation.Runtime.{
  AutomationControlBackend, Runtime, request_control_mode, set_availability,
}
use carla.Automation.Runtime.Laws.{request_atomic, request_ok, withdraw_manual, request_refused}

abbrev counting : Bool → AutomationControlBackend ℕ
counting works = record {
  enter_manual_control = λ w. (ok tt, w + 1);
  enter_noa_control = λ w. ((if works then ok tt else err (external "busy")), w + 1);
}

abbrev offered : Runtime ℕ
offered = record { state = record { availability = available; control_mode = manual }; world = 0 }

abbrev driving : Runtime ℕ
driving = record {
  state = record { availability = available; control_mode = noa_active };
  world = 0;
}

abbrev withdrawn : Runtime ℕ
withdrawn = record {
  state = record { availability = unavailable; control_mode = manual };
  world = 0;
}

handed_back :
    (set_availability (counting true) unavailable driving).1
    ≡ record { state = withdrawn.state; world = 1 }
unfolding set_availability set_automation_availability
handed_back = refl

-- The counted transition of a backend that then raises stays counted.
refusal_counted : (request_control_mode (counting false) noa_active offered).1.world ≡ 1
unfolding request_control_mode set_driving_control_mode
refusal_counted = refl

fails : (request_control_mode (counting false) noa_active offered).0 ≡ err (external "busy")
unfolding request_control_mode set_driving_control_mode
fails = refl

request_atomic_example :
    (request_control_mode (counting false) noa_active offered).1.state ≡ offered.state
request_atomic_example = request_atomic (counting false) noa_active offered (external "busy") fails

returns : (request_control_mode (counting true) noa_active offered).0 ≡ ok driving.state
unfolding request_control_mode set_driving_control_mode
returns = refl

request_ok_example :
    ((request_control_mode (counting true) noa_active offered).1.state ≡ driving.state)
    × (driving.state.control_mode ≡ noa_active)
    × (driving.state.availability ≡ offered.state.availability)
request_ok_example = request_ok (counting true) noa_active offered driving.state returns

withdraws : (set_availability (counting true) unavailable driving).0 ≡ ok withdrawn.state
unfolding set_availability set_automation_availability
withdraws = refl

withdraw_manual_example :
    ((set_availability (counting true) unavailable driving).1.state ≡ withdrawn.state)
    × (withdrawn.state.control_mode ≡ manual)
    × (withdrawn.state.availability ≡ unavailable)
withdraw_manual_example =
    withdraw_manual (counting true) driving withdrawn.state (λ e. refl) withdraws

request_refused_example : request_control_mode (counting true) noa_active withdrawn ≡ (
  err (state_transition (record { availability = unavailable; control_mode = noa_active })),
  withdrawn,
)
request_refused_example = request_refused (counting true) withdrawn refl refl
