-- ===== src/Journal/States.antt =====
-- The state machine of a journal record: reachability, and what it rules out.
use hyper_trader.Common.{◌≡◌, refl, ◌≢◌, ◌⊎◌, inl, inr, true, none, arith, ok, is_some}
use hyper_trader.Journal.{
  JournalState, prepared, submission_started, abandoned_before_submission,
  assert_journal_transition, is_terminal_journal_state, PreparedActionRecord, transition, unchanged,
  restart_recovery_decision, RestartRecoveryDecision,
}

-- The states that accepted transitions lead to.
pub data Reach (s : JournalState) : JournalState → Type 0 where
  here : Reach s s
  next : {t u : JournalState} → Reach s t → assert_journal_transition t u ≡ ok tt → Reach s u

terminal_stops :
    (t u : JournalState)
    → is_terminal_journal_state t ≡ true
    → assert_journal_transition t u ≡ ok tt
    → ⊥
unfolding assert_journal_transition
terminal_stops t u h e = ground arith

-- A record in a terminal state never leaves it, by however many transitions.
pub Reach-terminal : {s t : JournalState} → is_terminal_journal_state s ≡ true → Reach s t → t ≡ s
Reach-terminal h here = refl
Reach-terminal {s} h (next {t} {u} r e) =
    absurd (terminal_stops t u (subst_state (Reach-terminal h r)) e)
  where
    subst_state : t ≡ s → is_terminal_journal_state t ≡ true
    subst_state p = cc

-- What can follow a state on the way from `prepared`.
abbrev IsEarly : JournalState → Type 0
IsEarly t = (t ≡ prepared) ⊎ (t ≡ abandoned_before_submission)

IsEarly-step :
    (t u : JournalState)
    → IsEarly t
    → assert_journal_transition t u ≡ ok tt
    → IsEarly u ⊎ (u ≡ submission_started)
unfolding assert_journal_transition
IsEarly-step t u h e = ground arith

-- A state that a sequence of transitions goes through, its first and its last one included.
pub Passes : {s t : JournalState} → JournalState → Reach s t → Type 0
Passes {s} m here = s ≡ m
Passes m (next {t} {u} r e) = (u ≡ m) ⊎ Passes m r

-- From `prepared` a record stays, is abandoned, or has gone through `submission_started` on the way:
-- no result is recorded for an action whose submission has not started.
pub Reach-submission_started :
    {t : JournalState} (r : Reach prepared t) → IsEarly t ⊎ Passes submission_started r
unfolding Passes
Reach-submission_started here = inl (inl refl)
Reach-submission_started (next {t} {u} r e) = elim (Reach-submission_started r) [
  | inr started ↦ inr (inr started)
  | inl early ↦ elim (IsEarly-step t u early e) [ inl still ↦ inl still | inr now ↦ inr (inl now) ]
]

late_step :
    (t u : JournalState)
    → t ≢ prepared
    → t ≢ abandoned_before_submission
    → assert_journal_transition t u ≡ ok tt
    → (u ≢ prepared) × (u ≢ abandoned_before_submission)
unfolding assert_journal_transition
late_step t u h k e = ground arith

-- Once submission has started, the action is never taken for unsubmitted: neither `prepared` nor
-- `abandoned_before_submission` can be reached.
pub Reach-ne-unsubmitted :
    {t : JournalState}
    → Reach submission_started t
    → (t ≢ prepared) × (t ≢ abandoned_before_submission)
Reach-ne-unsubmitted here = (λ e. cc, λ e. cc)
Reach-ne-unsubmitted (next {t} {u} r e) = let (h, k) = Reach-ne-unsubmitted r in late_step t u h k e

-- A record that is only prepared, and has a marker of submission all the same.
abbrev pub IsContradictory : PreparedActionRecord → Type 0
IsContradictory r = (r.state ≡ prepared) × (is_some r.submission_started_at ≡ true)

-- The record says that its submission may have started.
abbrev pub IsSubmitted : PreparedActionRecord → Type 0
IsSubmitted r = (is_some r.submission_started_at ≡ true) ⊎ (r.state ≡ submission_started)

-- What recovery after a restart may decide for a record.
abbrev pub IsSafeRecovery : PreparedActionRecord → RestartRecoveryDecision → Type 0
IsSafeRecovery r unchanged =
    (is_terminal_journal_state r.state ≡ true) ⊎ (r.state ≡ JournalState.unresolved)
IsSafeRecovery r (transition s) =
    ((assert_journal_transition r.state s ≡ ok tt) ⊎ IsContradictory r)
    × (((s ≡ JournalState.unresolved) × IsSubmitted r)
        ⊎ ((s ≡ abandoned_before_submission)
            × (r.state ≡ prepared)
            × (r.submission_started_at ≡ none)))

-- Recovery leaves a record alone exactly if it is finished or waits for its result already. Else it
-- proposes `unresolved` if the action may have been submitted, by its marker or its state, and
-- `abandoned_before_submission` only if it is prepared and has no marker. The transition is allowed,
-- unless the record is prepared and has a marker all the same.
pub restart_recovery_decision-IsSafeRecovery :
    (r : PreparedActionRecord) → IsSafeRecovery r (restart_recovery_decision r)
unfolding restart_recovery_decision assert_journal_transition
restart_recovery_decision-IsSafeRecovery r = ground arith
