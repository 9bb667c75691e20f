-- ===== src/Session/Segment/Laws.antt =====
-- The segments of a session's stages against the check of src/experiment/context.py.
use Prim.Native.String.append
use Prim.Native.String.{[], ◌∷◌}
use carla.Prelude.{◌≡◌, refl, sym, subst, is_some, true, String, arith}
use carla.Prelude.Strings.{has_text, text_append}
use carla.Exec.{ok}
use carla.Session.{Stage}
use carla.Session.Segment.{
  ExperimentPhase, StudyRun, SegmentContext, is_module_1_condition, is_module_2_condition, phase_of,
  conditions_of, segment, value, checked, phase_admits,
}

-- What `StudyRunContext` has checked.
pub record IsAssigned (run : StudyRun) : Type 0 where
  pub named : has_text run.study_run_id ≡ true
  pub first : is_module_1_condition run.module_1_condition ≡ true
  pub second : is_module_2_condition run.module_2_condition ≡ true

has_text-append : (a b : String) → has_text a ≡ true → has_text (text_append a b) ≡ true
unfolding has_text text_append
has_text-append [] b h = cc
has_text-append (c ∷ s) b h =
    subst (λ t. has_text t ≡ true) (sym (append.cons c s b)) (ground (arith, has_text-append s b))

checked_ok :
    (s : SegmentContext)
    → has_text s.segment_id ≡ true
    → has_text s.study_run_id ≡ true
    → phase_admits s.phase s.module' s.condition s.outcome_family ≡ true
    → checked s ≡ ok s
unfolding checked
checked_ok s h k l = ground arith

phase_ok :
    (run : StudyRun) (p : ExperimentPhase)
    → IsAssigned run
    → let (m, c, o) = conditions_of run p in (phase_admits p m c o ≡ true) × (is_some c ≡ is_some m)
unfolding phase_admits conditions_of
phase_ok run ExperimentPhase.module_1 h = ground arith
phase_ok run ExperimentPhase.module_2 h = ground arith
phase_ok run ExperimentPhase.final_hazard_assessment h = ground arith
phase_ok run _ h = (refl, refl)

-- Every stage of a session whose run was checked has a segment that the check admits, in the phase
-- of the stage, with a condition just in the phases that have a module.
pub segment_admitted :
    (run : StudyRun) (stage : Stage)
    → IsAssigned run
    → (c : SegmentContext) × (segment run stage ≡ ok c)
      × (c.phase ≡ phase_of stage)
      × (is_some c.condition ≡ is_some c.module')
unfolding segment
segment_admitted run stage h =
    let k = phase_ok run (phase_of stage) h in
    (
      _,
      checked_ok _
          (has_text-append (text_append run.study_run_id ":") (value stage)
            (has_text-append run.study_run_id ":" h.named))
          h.named k.0,
      refl,
      k.1,
    )
