-- ===== src/Orchestrator/Sent.antt =====
-- orchestrator.ts: what a confirmation submits.
use hyper_trader.Orchestrator.Once.{
  IsOneSent, SendsOne, after_sent, none_sent, >>=-SendsOne, >>-SendsOne, catching-SendsOne,
  reading-SendsOne,
}
use hyper_trader.Common.{
  ℕ, ◌≡◌, inl, inr, refl, ap, subst, Bool, true, false, String, Option, some, ◌∷◌, arith, Number,
  Result, ok, err, Error, str_eq, str_eq_self, if◌then◌else◌,
}
use hyper_trader.Common.Runs.{passed, ◌>>=◌, ◌>>◌}
use hyper_trader.Journal.{PreparedActionRecord}
use hyper_trader.Signing.{Eip712Signature}
use hyper_trader.Persistence.Actions.{
  Repository, SubmissionStartReceipt, mark_submission_started, consume,
}
use hyper_trader.Persistence.Signers.{External}
use hyper_trader.Persistence.Calls.{mark}
use hyper_trader.Persistence.Progress.{IsLater, is_past_prepared}
use hyper_trader.Persistence.History.{step-IsLater, permits_of-outcome}
use hyper_trader.Flow.{advance, submitting}
use hyper_trader.Orchestrator.{
  World, Script, Checked, dispatch, on_repository, given, send, submit, sign, unlock_and_reserve,
  pipeline, begin, confirm_action, answered, send_marked, submission_of,
}
use hyper_trader.Orchestrator.Quiet.{
  meanwhile-IsQuiet, reserve-IsForward, recover_from-IsQuiet, record_result-IsQuiet,
}
use hyper_trader.Orchestrator.Effects.{
  IsKept, IsQuiet, >>=-IsQuiet, >>-IsQuiet, given-IsQuiet, dispatch-IsQuiet, hold_journal-IsQuiet,
  on_repository-IsQuiet, reading-IsQuiet,
}

module _ (x : External) (failure_code : Error → Option String) where
  -- A start marker that is granted takes the action past `prepared`, where it was not before.
  mark-IsStarted :
      (id : String) (now : Number) (repo : Repository) {receipt : SubmissionStartReceipt}
      {repo' : Repository}
      → mark_submission_started id now repo ≡ (ok receipt, repo')
      → (is_past_prepared id repo.database ≡ false) × (is_past_prepared id repo'.database ≡ true)
  mark-IsStarted id now repo {receipt} {repo'} h =
      elim (permits_of-outcome x id (mark id now) repo) [
        | inl e ↦
            absurd
              (one_permit (mark_submission_started id now repo) h (str_eq id id) (str_eq_self id) e)
        | inr (_, before, after) ↦ (
          before,
          subst
              (λ (d : Result SubmissionStartReceipt × Repository).
                is_past_prepared id d.1.database ≡ true)
              h after,
        )
      ]
    where
      one_permit :
          (done : Result SubmissionStartReceipt × Repository)
          → done ≡ (ok receipt, repo')
          → (b : Bool) → b ≡ true
          → (if b then hyper_trader.Persistence.Calls.permits x done.0 else 0) ≡ 0
          → ⊥
      one_permit (ok r, at) d true t e = absurd (omega (arith, e))
      one_permit (err thrown, at) d b t e = cc
      one_permit (ok r, at) d false t e = cc

  answered-IsQuiet :
      (generation : ℕ) (script : Script) (checked : Checked) (row : PreparedActionRecord)
      → IsQuiet (answered x failure_code generation script checked row)
  answered-IsQuiet generation script checked row =
      >>-IsQuiet _ _ (meanwhile-IsQuiet x failure_code script.during_submission) (
        >>=-IsQuiet _ _ (given-IsQuiet script.answer) (λ result.
          record_result-IsQuiet x failure_code generation script checked row.journal_id result))

  sent_marked :
      (generation : ℕ) (script : Script) (checked : Checked) (row : PreparedActionRecord)
      (signature : Eip712Signature) (w v : World) (permit : Result (Unit {0}))
      → IsKept w v
      → is_past_prepared row.journal_id w.repository.database ≡ false
      → is_past_prepared row.journal_id v.repository.database ≡ true
      → IsOneSent w
          (passed
            (permit, v)
            (λ _.
              send (submission_of x failure_code row signature)
              >> answered x failure_code generation script checked row)).1
  unfolding send ◌>>◌ ◌>>=◌ IsQuiet
  sent_marked generation script checked row signature w v (err e) k before after = none_sent w v k
  sent_marked generation script checked row signature w v (ok _) k before after =
      let s = submission_of x failure_code row signature in
      let u : World = record v { sent = s ∷ v.sent } in
      let one : IsOneSent w u = record {
        later = k.1;
        at_most_one =
            inr (s, record { added = ap (λ t. s ∷ t) k.0; unsubmitted = before; marked = after });
      } in
      after_sent w u _ one (answered-IsQuiet generation script checked row u)

  submit_from :
      (generation : ℕ) (script : Script) (checked : Checked) (row : PreparedActionRecord)
      (signature : Eip712Signature) (w : World) (done : Result SubmissionStartReceipt × Repository)
      → mark_submission_started row.journal_id script.started_at w.repository ≡ done
      → IsOneSent w
          (passed
            (done.0, record w { repository = done.1 })
            (send_marked x failure_code generation script checked row signature)).1
  unfolding send_marked dispatch given ◌>>◌ ◌>>=◌
  submit_from generation script checked row signature w (err e, at) h =
      none_sent w (record w { repository = at }) (refl, later at h)
    where
      later :
          (at : Repository)
          → mark_submission_started row.journal_id script.started_at w.repository ≡ (err e, at)
          → IsLater w.repository.database at.database
      later at h =
          subst
            (λ (d : Result SubmissionStartReceipt × Repository).
              IsLater w.repository.database d.1.database)
            h (step-IsLater x (mark row.journal_id script.started_at) w.repository)
  submit_from generation script checked row signature w (ok receipt, at) h =
      let (before, after) = mark-IsStarted row.journal_id script.started_at w.repository h in
      let started : World = record w { repository = at } in
      sent_marked generation script checked row signature w
        (dispatch (advance generation submitting (some row.journal_id)) started).1
        (consume receipt.transport_permit).0 (refl, later) before after
    where
      later : IsLater w.repository.database at.database
      later =
          subst
            (λ (d : Result SubmissionStartReceipt × Repository).
              IsLater w.repository.database d.1.database)
            h (step-IsLater x (mark row.journal_id script.started_at) w.repository)

  submit-SendsOne :
      (generation : ℕ) (script : Script) (checked : Checked) (row : PreparedActionRecord)
      (signature : Eip712Signature)
      → SendsOne (submit x failure_code generation script checked row signature)
  unfolding submit SendsOne ◌>>=◌ on_repository
  submit-SendsOne generation script checked row signature w =
      submit_from generation script checked row signature w _ refl

  sign-SendsOne :
      (generation : ℕ) (script : Script) (checked : Checked) (row : PreparedActionRecord)
      → SendsOne (sign x failure_code generation script checked row)
  sign-SendsOne generation script checked row = >>-SendsOne _ _ (hold_journal-IsQuiet _) (
      >>-SendsOne _ _ (given-IsQuiet _) (
        >>-SendsOne _ _ (dispatch-IsQuiet _) (
          >>-SendsOne _ _ (meanwhile-IsQuiet x failure_code script.during_signing) (
            >>=-SendsOne _ _ (given-IsQuiet script.signed) (λ signature.
              >>-SendsOne _ _ (given-IsQuiet _) (
                >>-SendsOne _ _ (dispatch-IsQuiet _) (
                  >>-SendsOne _ _ (given-IsQuiet _)
                    (submit-SendsOne generation script checked row signature))))))))

  unlock_and_reserve-SendsOne :
      (generation : ℕ) (script : Script) (checked : Checked)
      → SendsOne (unlock_and_reserve x failure_code generation script checked)
  unlock_and_reserve-SendsOne generation script checked = >>-SendsOne _ _ (dispatch-IsQuiet _) (
      >>-SendsOne _ _ (meanwhile-IsQuiet x failure_code script.during_unlock) (
        >>-SendsOne _ _ (given-IsQuiet script.unlocked) (
          >>-SendsOne _ _ (given-IsQuiet _) (
            >>-SendsOne _ _ (dispatch-IsQuiet _) (
              >>=-SendsOne _ _ (on_repository-IsQuiet _ (reserve-IsForward x failure_code _))
                (λ row. sign-SendsOne generation script checked row))))))

  pipeline-SendsOne :
      (generation : ℕ) (script : Script) → SendsOne (pipeline x failure_code generation script)
  unfolding pipeline
  pipeline-SendsOne generation script = >>-SendsOne _ _ (given-IsQuiet _) (
      >>-SendsOne _ _ (meanwhile-IsQuiet x failure_code script.during_refresh) (
        >>-SendsOne _ _ (given-IsQuiet script.refreshed) (
          >>-SendsOne _ _ (given-IsQuiet _) (
            >>=-SendsOne _ _ (given-IsQuiet script.checked)
              (λ checked. unlock_and_reserve-SendsOne generation script checked)))))

  begin-SendsOne : (script : Script) → SendsOne (begin x failure_code script)
  begin-SendsOne script = >>-SendsOne _ _ (dispatch-IsQuiet _) (
      >>-SendsOne _ _ (hold_journal-IsQuiet _) (
        reading-SendsOne _ (λ w.
          catching-SendsOne _ _ (pipeline-SendsOne w.flow.generation script)
            (recover_from-IsQuiet x failure_code w.flow.generation script))))

  confirm_action-SendsOne : (script : Script) → SendsOne (confirm_action x failure_code script)
  unfolding confirm_action
  confirm_action-SendsOne script = >>-SendsOne _ _ (given-IsQuiet _) (
      >>-SendsOne _ _ (given-IsQuiet _)
        (>>-SendsOne _ _ (reading-IsQuiet _ (λ w. given-IsQuiet _)) (begin-SendsOne script)))

  -- A confirmation submits nothing or once, whatever its ports answer, whatever others do while it
  -- waits, and whether it throws or not. If it submits, then the journal did not hold the action past
  -- `prepared` when the confirmation began, and does when it ends.
  pub confirm_action-IsOneSent :
      (script : Script) (w : World) → IsOneSent w (confirm_action x failure_code script w).1
  unfolding SendsOne
  confirm_action-IsOneSent script w = confirm_action-SendsOne script w
