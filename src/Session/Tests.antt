-- ===== src/Session/Tests.antt =====
-- Sessions over collaborators that answer, with a world that counts what they were asked.
use carla.Prelude.{
  ℕ, ◌+◌, Bool, true, false, ◌≡◌, ◌≢◌, refl, Option, some, none, List, [], ◌∷◌, inl, ◌⊎◌, is_some,
}
use carla.Prelude.Strings.{has_text, text_append}
use carla.Float.Example.{whole}
use carla.Exec.{Result, ok, err, Exec, ◌>>=◌, pure, raise, gets, lift, modify, when}
use carla.Context.{no_surt, noa_l2}
use carla.Session.{
  session_created, consent_and_eligibility, training, aborted, accelerated, participant, Fault,
  os_error, runtime_error, Readiness, successor, receipts_of, minimum, is_in,
}
use carla.Session.Segment.{StudyRun, SegmentContext, phase_of, segment}
use carla.Session.Segment.Laws.{IsAssigned, segment_admitted}
use carla.Session.Record.{StageRecord, Session, Environment, Components}
use carla.Session.Effects.{
  try_except, try_finally, on_world, emit, is_bounded_rest, entry_times, new_record, begin_record,
  activate_record, duration, end_record, snapshot, manifest, save, fresh, construct, in_progress,
}
use carla.Session.Finalize.{
  reason_or, collect, close, audit_of, shut, export, persist, wind_up, finalize, note, abort_status,
  abort_open, abort, set_up, initialize,
}
use carla.Session.Transition.{
  lookup, insert, is_status, receipt_satisfied, lacks_receipt, is_successor, outcome_of,
  raise_blocker, check_blocker, check_elapsed, guard_contract, guard, arrive, depart, enter_stage,
  move, permit, transition,
}
use carla.Session.Outcomes.{statuses, write_receipt, acknowledge}
use carla.Session.Stages.{Reach}
use carla.Session.Stages.Runs.{
  Operation, initializes, acknowledges, transitions, perform, after_all, run-Reach, closed_final,
}
use carla.Session.Contract.{IsPlain}
use carla.Session.Contract.Advance.{MeetsContract, advance_contract}
use carla.Session.Closing.{RaisesOnly, IsRegular}
use carla.Session.Closing.Failing.{initialize_failure, transition_failure}
use carla.Session.Participant.{IsBlocked, participant-IsBlocked}

abbrev run : StudyRun
run = record { study_run_id = "R1"; module_1_condition = no_surt; module_2_condition = noa_l2 }

abbrev answers : Exec Fault ℕ Unit
answers w = (ok tt, w + 1)

abbrev components : Components ℕ ℕ
components = record {
  make = answers;
  is_bounded_operator = false;
  enter = λ s. answers;
  leave = λ s. answers;
  completion_blocker = λ s w. (ok none, w + 1);
  record_receipt = λ n s v. answers;
  flush = answers;
  cleanup = answers;
  snapshot = λ w. (ok w, w + 1);
}

abbrev unready : Readiness
unready = record {
  eye_tracker_required = true;
  eye_tracker_available = false;
  eye_tracker_calibrated = false;
  screen_aoi_ready = true;
  tablet_ready = true;
  tablet_aoi_ready = true;
  clock_sync_ready = true;
  p7_live_validated = true;
  p1_p5_matrix_ready = true;
  rescue_owner_ready = true;
  final_parameters_ready = true;
  final_video_ready = true;
}

abbrev env : Environment ℕ ℕ ℕ
env = record {
  mode = accelerated;
  profile = record { label = "DEV_ACCELERATED"; module_1_s = 4; rest_s = 2; module_2_s = 4 };
  operator_provenance = false;
  readiness = unready;
  run = run;
  components = components;
  elapsed = λ w. (ok w, w + 1);
  write_event = λ c e. answers;
  save_manifest = λ m. answers;
  close_logger = answers;
  inspect_outputs =
      λ c p w. (ok (record { software_artifacts_complete = true; issues = [] }), w + 1);
  finalize_collection = answers;
  export_operator_results = answers;
}

abbrev first : StageRecord ℕ ℕ
first = record {
  stage = session_created;
  status = "RUNNING";
  entry_attempt_session_s = 0;
  start_session_s = some 1;
  end_session_s = none;
  duration_s = none;
  condition = none;
  minimum_s = 0;
  recommended_duration_s = none;
  receipts = [];
  receipt_values = [];
  reason = none;
  dev_approval = none;
  execution_policy_outcome = none;
}

abbrev begun : Session ℕ ℕ ℕ
begun = record {
  state = session_created;
  services_stage = session_created;
  services_closed = false;
  has_components = false;
  closed = false;
  past = [];
  current = first;
  receipts = [];
  abort_reason = none;
  cleanup_report = record { completed = false; order = []; errors = [] };
  initial_components = none;
  result = none;
  lifecycle_errors = [];
  world = 2;
}

-- What `construct` gives, but for the world's count and the manifest.
built : Result Fault (Session ℕ ℕ ℕ)
built = construct env 0

abbrev current_of : Result Fault (Session ℕ ℕ ℕ) → Option (StageRecord ℕ ℕ)
current_of (ok s) = some s.current
current_of (err e) = none

built-current : current_of built ≡ some first
unfolding built construct new_record segment entry_times is_bounded_rest minimum fresh emit save
    snapshot manifest on_world has_text text_append ◌>>=◌ pure gets lift modify when
built-current = refl

abbrev rehearsal : List (Operation ℕ)
rehearsal =
    initializes
    ∷ transitions consent_and_eligibility
    ∷ acknowledges "consent" "DEV_STUB" 0
    ∷ acknowledges "eligibility" "OPERATOR_CONFIRMED" 0
    ∷ []

abbrev asked : Session ℕ ℕ ℕ
asked = after_all env rehearsal begun

asked-state : asked.state ≡ consent_and_eligibility
unfolding after_all perform initialize set_up try_except emit save snapshot manifest on_world
    segment has_text text_append transition permit successor is_successor guard guard_contract
    lacks_receipt receipts_of check_elapsed is_bounded_rest minimum check_blocker raise_blocker move
    depart outcome_of end_record duration enter_stage begin_record new_record entry_times
    activate_record arrive acknowledge is_in statuses write_receipt insert in_progress ◌>>=◌ pure
    raise gets lift modify when
asked-state = refl

run-Reach_example : Reach session_created false asked.state asked.closed
run-Reach_example = run-Reach env rehearsal begun

abbrev over : Session ℕ ℕ ℕ
over = record begun { state = aborted; services_stage = aborted; closed = true }

closed_final_example :
    (((after_all env rehearsal over).state ≡ aborted)
      ⊎ ((after_all env rehearsal over).state ≡ aborted))
    × ((after_all env rehearsal over).closed ≡ true)
closed_final_example = closed_final env rehearsal over refl

begun-IsPlain : IsPlain begun
begun-IsPlain = record { no_approval = refl; no_policy = refl }

trains : (transition env training asked).1.state ≡ training
unfolding after_all perform initialize set_up try_except emit save snapshot manifest on_world
    segment has_text text_append transition permit successor is_successor guard guard_contract
    lacks_receipt receipt_satisfied lookup is_status receipts_of check_elapsed is_bounded_rest
    minimum check_blocker raise_blocker move depart outcome_of end_record duration enter_stage
    begin_record new_record entry_times activate_record arrive acknowledge is_in statuses
    write_receipt insert in_progress ◌>>=◌ pure raise gets lift modify when
trains = refl

asked_moves : (transition env training asked).1.state ≢ asked.state
asked_moves e = cc (trains, asked-state, e)

advance_contract_example : MeetsContract env asked
advance_contract_example =
    advance_contract env rehearsal begun training refl begun-IsPlain asked_moves

answers-RaisesOnly : {catches : Fault → Bool} → RaisesOnly catches answers
answers-RaisesOnly = record { calm = λ s e h. cc }

-- With components, so that they are flushed and cleaned.
abbrev running : Session ℕ ℕ ℕ
running = record begun { has_components = true }

-- The same collaborators, but the components cannot be made, nor enter a stage.
abbrev broken : Environment ℕ ℕ ℕ
broken = record env {
  components = record components {
    make = λ w. (err (os_error "NO_DEVICE"), w);
    enter = λ s w. (err (runtime_error "NO_SCENE"), w);
  };
}

broken-IsRegular : IsRegular broken
broken-IsRegular = record {
  elapsed_calm = record { calm = λ s e h. cc };
  write_calm = λ c e. answers-RaisesOnly;
  flush_calm = answers-RaisesOnly;
  cleanup_calm = answers-RaisesOnly;
  close_os = answers-RaisesOnly;
}

unmade : (initialize broken begun).0 ≡ err (os_error "NO_DEVICE")
unfolding initialize set_up try_except emit save snapshot manifest on_world segment has_text
    text_append abort abort_open note begin_record new_record entry_times is_bounded_rest minimum
    end_record duration finalize wind_up collect close shut persist reason_or audit_of export
    try_finally abort_status ◌>>=◌ pure raise gets lift modify when
unmade = refl

initialize_failure_example : (initialize broken begun).1.closed ≡ true
initialize_failure_example =
    initialize_failure broken broken-IsRegular begun (os_error "NO_DEVICE") unmade refl

abbrev equipped : Session ℕ ℕ ℕ
equipped = record begun { has_components = true }

permitted : (permit broken consent_and_eligibility equipped).0 ≡ ok tt
unfolding permit successor is_successor guard guard_contract lacks_receipt receipts_of check_elapsed
    is_bounded_rest minimum check_blocker raise_blocker on_world ◌>>=◌ pure raise gets when
permitted = refl

unentered : (transition broken consent_and_eligibility equipped).0 ≡ err (runtime_error "NO_SCENE")
unfolding transition permit successor is_successor guard guard_contract lacks_receipt receipts_of
    check_elapsed check_blocker raise_blocker move depart outcome_of enter_stage initialize set_up
    try_except emit save snapshot manifest on_world segment has_text text_append abort abort_open
    note begin_record new_record entry_times is_bounded_rest minimum end_record duration finalize
    wind_up collect close shut persist reason_or audit_of export try_finally abort_status ◌>>=◌ pure
    raise gets lift modify when
unentered = refl

transition_failure_example : (transition broken consent_and_eligibility equipped).1.closed ≡ true
transition_failure_example =
    transition_failure broken broken-IsRegular consent_and_eligibility equipped
      (runtime_error "NO_SCENE") permitted unentered refl

abbrev for_participants : Environment ℕ ℕ ℕ
for_participants = record env { mode = participant }

begun-IsBlocked : IsBlocked begun
begun-IsBlocked = record { no_components = refl; at_start = inl refl }

participant-IsBlocked_example : IsBlocked (after_all for_participants rehearsal begun)
participant-IsBlocked_example =
    participant-IsBlocked for_participants refl rehearsal begun begun-IsBlocked

run-IsAssigned : IsAssigned run
unfolding has_text
run-IsAssigned = record { named = refl; first = refl; second = refl }

segment_admitted_example :
    (c : SegmentContext) × (segment run training ≡ ok c)
    × (c.phase ≡ phase_of training)
    × (is_some c.condition ≡ is_some c.module')
segment_admitted_example = segment_admitted run training run-IsAssigned
