-- ===== src/Session/Closing/Calls.antt =====
-- What `abort` of src/p8/orchestrator.py calls of the components and of the log: an environment whose
-- world has a list of these calls beside it, and the list after `abort`.
pub mod Quiet
pub mod Order
use carla.Prelude.{Bool, true, false, not, List, [], ◌∷◌, ◌++◌, if◌then◌else◌}
use carla.Exec.{Exec}
use carla.Session.{Fault}
use carla.Session.Record.{Session, Environment}

pub data Call : Type 0 where
  flush_called cleanup_called log_close_called : Call

module _ {W A : Type 0} where
  -- A call that is not listed.
  unfoldable pub unlisted : Exec Fault W A → Exec Fault (W × List Call) A
  unlisted m (w, calls) = let (r, w') = m w in (r, (w', calls))

  -- A call that is listed, whether it returns or raises.
  unfoldable pub listed : Call → Exec Fault W A → Exec Fault (W × List Call) A
  listed c m (w, calls) = let (r, w') = m w in (r, (w', calls ++ c ∷ []))

-- The same collaborators, with a list of the calls of the flush, of the cleanup and of the closing of
-- the log.
abbrev pub watched : {F J W : Type 0} → Environment F J W → Environment F J (W × List Call)
watched env = record {
  mode = env.mode;
  profile = env.profile;
  operator_provenance = env.operator_provenance;
  readiness = env.readiness;
  run = env.run;
  components = record {
    make = unlisted env.components.make;
    is_bounded_operator = env.components.is_bounded_operator;
    enter = λ s. unlisted (env.components.enter s);
    leave = λ s. unlisted (env.components.leave s);
    completion_blocker = λ s. unlisted (env.components.completion_blocker s);
    record_receipt = λ n s v. unlisted (env.components.record_receipt n s v);
    flush = listed flush_called env.components.flush;
    cleanup = listed cleanup_called env.components.cleanup;
    snapshot = unlisted env.components.snapshot;
  };
  elapsed = unlisted env.elapsed;
  write_event = λ c e. unlisted (env.write_event c e);
  save_manifest = λ m. unlisted (env.save_manifest m);
  close_logger = listed log_close_called env.close_logger;
  inspect_outputs = λ c p. unlisted (env.inspect_outputs c p);
  finalize_collection = unlisted env.finalize_collection;
  export_operator_results = unlisted env.export_operator_results;
}

-- A session, with no call yet.
abbrev pub watch : {F J W : Type 0} → Session F J W → Session F J (W × List Call)
watch s = record {
  state = s.state;
  services_stage = s.services_stage;
  services_closed = s.services_closed;
  has_components = s.has_components;
  closed = s.closed;
  past = s.past;
  current = s.current;
  receipts = s.receipts;
  abort_reason = s.abort_reason;
  cleanup_report = s.cleanup_report;
  initial_components = s.initial_components;
  result = s.result;
  lifecycle_errors = s.lifecycle_errors;
  world = (s.world, []);
}

abbrev pub if_so : Bool → Call → List Call
if_so b c = if b then c ∷ [] else []

-- The flush and then the cleanup of components that are there, and the closing of a log that is open.
abbrev pub expected_calls : Bool → Bool → List Call
expected_calls true log_closed =
    flush_called ∷ cleanup_called ∷ if_so (not log_closed) log_close_called
expected_calls false log_closed = if_so (not log_closed) log_close_called
