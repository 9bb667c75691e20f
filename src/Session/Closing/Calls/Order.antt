-- ===== src/Session/Closing/Calls/Order.antt =====
-- The listed calls of `abort` of src/p8/orchestrator.py, in their order.
use carla.Prelude.{Bool, List, [], ◌∷◌, ◌++◌, if◌then◌else◌}
use carla.Float.{Float}
use carla.Exec.{Exec}
use carla.Exec.Takes.{Takes}
use carla.Session.Record.{Session}
use carla.Session.Closing.Calls.{Call}
use carla.Session.Closing.Calls.Quiet.{SameCalls-IsPreorder, Uncalled-IsPreorder}

-- A call that happens if `b`.
abbrev add_if : Bool → Call → List Call → List Call
add_if b c calls = if b then calls ++ c ∷ [] else calls
