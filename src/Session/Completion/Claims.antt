-- ===== src/Session/Completion/Claims.antt =====
-- The manifests along the methods of src/p8/orchestrator.py.
use carla.Prelude.{
  ◌≡◌, refl, sym, ◌∙◌, ap, subst, Bool, true, false, ◌&&◌, not, List, [], ◌∷◌, String,
  if◌then◌else◌,
}
use carla.Float.{Float}
use carla.Exec.{modify, when, ◌>>=◌}
use carla.Exec.Frame.{IsPreorder, Moves, Moves-modify, Moves-bind}
use carla.Session.Record.{CleanupStep, Session, Environment, Audit}
use carla.Session.Effects.{
  is_caught, Action, begin_record, activate_record, end_record, manifest, save,
}
use carla.Session.Finalize.{is_empty, shut, persist, finalize, note}
use carla.Session.Moves.{
  IsWorldly, Moves-try, Moves-finally, Moves-export, Moves-audit_of, Moves-snapshot, quiet_rules,
}
use carla.Exec.Takes.{Takes, Takes-via}
use carla.Session.Completion.{
  claims_completion, OfResult, IsHonest, KeepsHonest, KeepsHonest-IsPreorder, KeepsHonest-IsWorldly,
  honest_rules, begin-KeepsHonest, activate-KeepsHonest, end-KeepsHonest, save-KeepsHonest,
  wind_up-KeepsHonest,
}

-- An honest session whose report of the cleanup says `b`.
record Reports {F J W : Type 0} (b : Bool) (s : Session F J W) : Type 0 where
  is_honest : IsHonest s
  says : s.cleanup_report.completed ≡ b

record KeepsReport {F J W : Type 0} (b : Bool) (s t : Session F J W) : Type 0 where
  reports : Reports b s → Reports b t

instance KeepsReport-IsPreorder :
    {F J W : Type 0} {b : Bool} → IsPreorder (KeepsReport {F = F} {J = J} {W = W} b)
KeepsReport-IsPreorder = record {
  refl_at = λ s. record { reports = λ h. h };
  trans_at = λ s t u p q. record { reports = λ h. q.reports (p.reports h) };
}

KeepsHonest-Reports :
    {F J W : Type 0} {b : Bool} (s t : Session F J W) → KeepsHonest s t → KeepsReport b s t
KeepsHonest-Reports s t k = record {
  reports = λ h. record {
    is_honest = k.keeps h.is_honest;
    says = ap (λ r. r.completed) k.same_report ∙ h.says;
  };
}

module _ {F J W A : Type 0} where
  Honest-Report : (b : Bool) (m : Action F J W A) → Moves KeepsHonest m → Moves (KeepsReport b) m
  Honest-Report b m k = record { at = λ s. KeepsHonest-Reports s (m s).1 (k.at s) }

module _ {F J W : Type 0} ⦃fl : Float F⦄ (env : Environment F J W) (b : Bool) where
  -- A manifest that may call the session complete where the audit and the cleanup do.
  save-KeepsReport :
      (status : String) (audit : Audit)
      → (claims_completion status ≡ true → audit.software_artifacts_complete ≡ true)
      → (claims_completion status ≡ true → b ≡ true)
      → Moves (KeepsReport b) (save env status audit)
  unfolding save manifest
  save-KeepsReport status audit h k =
      Moves-bind _ _ (Honest-Report b _ (Moves-snapshot env)) (λ parts.
        Moves-bind _ _
          (Moves-modify _ (λ s. record {
            reports = λ r. record {
              is_honest = record { honest = record { audited = h; cleaned = λ e. r.says ∙ k e } };
              says = r.says;
            };
          }))
          (λ _. Honest-Report b _ (search honest_rules depth 16)))

  saved_status :
      (c complete : Bool) (status : String)
      → claims_completion status ≡ c
      → claims_completion (if c && not complete then "ABORTED" else status) ≡ true
      → (complete ≡ true) × (claims_completion status ≡ true)
  saved_status true true status e h = (refl, h)
  saved_status true false status e h = cc
  saved_status false complete status e h = cc

  incomplete_status :
      (status : String) (complete : Bool)
      → claims_completion (if claims_completion status && not complete then "ABORTED" else status)
        ≡ true
      → (complete ≡ true) × (claims_completion status ≡ true)
  incomplete_status status complete h =
      saved_status (claims_completion status) complete status refl h

  persist-KeepsReport :
      (status : String)
      → (claims_completion status ≡ true → b ≡ true)
      → Moves (KeepsReport b) (persist env status)
  unfolding persist
  persist-KeepsReport status k = Moves-bind _ _ (Honest-Report b _ (Moves-snapshot env)) (λ parts.
      Moves-bind _ _ (Honest-Report b _ (Moves-audit_of env _ parts)) (λ audit.
        let incomplete = claims_completion status && not audit.software_artifacts_complete in
        Moves-bind _ _ (Honest-Report b _ (search honest_rules depth 8)) (λ _.
          Moves-finally _ _
            (save-KeepsReport _ audit
              (λ e. (incomplete_status status audit.software_artifacts_complete e).0)
              (λ e. k (incomplete_status status audit.software_artifacts_complete e).1))
            (Honest-Report b _ (Moves-export env)))))

-- The session stays honest.
record StaysHonest {F J W : Type 0} (s t : Session F J W) : Type 0 where
  stays : IsHonest s → IsHonest t

instance StaysHonest-IsPreorder :
    {F J W : Type 0} → IsPreorder (StaysHonest {F = F} {J = J} {W = W})
StaysHonest-IsPreorder = record {
  refl_at = λ s. record { stays = λ h. h };
  trans_at = λ s t u p q. record { stays = λ h. q.stays (p.stays h) };
}

instance StaysHonest-IsWorldly : {F J W : Type 0} → IsWorldly (StaysHonest {F = F} {J = J} {W = W})
StaysHonest-IsWorldly = record {
  world_at = λ s w. record { stays = λ h. record { honest = h.honest } };
}

module _ {F J W : Type 0} where
  result_write : (s t : Session F J W) → t.result ≡ s.result → StaysHonest s t
  result_write s t e = record {
    stays = λ h. record { honest = subst (λ r. OfResult r) (sym e) h.honest };
  }

module _ {F J W A : Type 0} where
  Moves-Honest : (m : Action F J W A) → Moves KeepsHonest m → Moves StaysHonest m
  Moves-Honest m k = record { at = λ s. record { stays = λ h. (k.at s).keeps h } }

ruleset stay_rules = (quiet_rules, Moves-modify, result_write)

module _ {F J W : Type 0} ⦃fl : Float F⦄ (env : Environment F J W) where
  shut-Reports :
      (errors : List String) (order : List CleanupStep)
      → Takes IsHonest (Reports (is_empty errors)) (shut env errors order)
  unfolding shut modify when ◌>>=◌
  shut-Reports [] order = record {
    takes = λ s h. record { is_honest = record { honest = h.honest }; says = refl };
  }
  shut-Reports (e ∷ es) order = record {
    takes = λ s h. record { is_honest = record { honest = h.honest }; says = refl };
  }

  kept_status :
      (errors : List String) (status : String)
      → claims_completion (if is_empty errors then status else "ABORTED") ≡ true
      → is_empty errors ≡ true
  kept_status [] status h = refl
  kept_status (e ∷ es) status h = cc

  finalize-Takes : (status : String) → Takes IsHonest IsHonest (finalize env status)
  unfolding finalize
  finalize-Takes status =
      Takes-via IsHonest _ _ (record { takes = λ s h. ((wind_up-KeepsHonest env).at s).keeps h })
        (λ (errors, order).
          Takes-via (Reports (is_empty errors)) _ _ (shut-Reports errors order)
            (λ _. record {
              takes = λ s h.
                  let k =
                    (persist-KeepsReport env (is_empty errors) _ (kept_status errors status)).at
                      s in
                  (k.reports h).is_honest;
            })
            (λ s h. h.is_honest))
        (λ s h. h)

  finalize-StaysHonest : (status : String) → Moves StaysHonest (finalize env status)
  finalize-StaysHonest status = record {
    at = λ s. record { stays = λ h. (finalize-Takes status).takes s h };
  }

  record-StaysHonest : (b : Bool) → Moves StaysHonest (begin_record env b)
  record-StaysHonest b = Moves-Honest _ (begin-KeepsHonest env b)

  activate-StaysHonest : Moves StaysHonest (activate_record env)
  activate-StaysHonest = Moves-Honest _ (activate-KeepsHonest env)

  end-StaysHonest : (status reason : String) → Moves StaysHonest (end_record env status reason)
  end-StaysHonest status reason = Moves-Honest _ (end-KeepsHonest env status reason)

  save-StaysHonest : (audit : Audit) → Moves StaysHonest (save env "RUNNING" audit)
  save-StaysHonest audit = Moves-Honest _ (save-KeepsHonest env audit)

  note-StaysHonest :
      (label : String) (m : Action F J W Unit)
      → Moves StaysHonest m
      → Moves StaysHonest (note env label m)
  unfolding note
  note-StaysHonest label m k = Moves-try is_caught m _ k (λ e. search stay_rules)

  ruleset method_rules = (
    stay_rules, record-StaysHonest, activate-StaysHonest, end-StaysHonest, save-StaysHonest,
    finalize-StaysHonest, note-StaysHonest,
  )
