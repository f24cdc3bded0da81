-- ===== src/Flow/Steps.antt =====
-- state-machine.ts: what one dispatched action makes of a flow.
use hyper_trader.Common.{
  ℕ, ◌+◌, ◌≤◌, ◌<◌, ◌≡◌, ◌⊎◌, inl, inr, refl, true, ◌&&◌, String, Option, none, some, arith,
  is_some, Bool-cases,
}
use hyper_trader.Flow.{
  ActionFlowPhase, submitting, failed_before_submission, ActionFlowState, Outcome, outcome_phase,
  accepted_outcome, rejected_outcome, expired_outcome, ambiguous_outcome, ActionFlowAction, confirm,
  advance, unresolved, terminal, fail_before_submission, reset, phase_eq, next_phase, is_next,
  is_current, given_or, is_confirmable, is_open, is_before_submission, moved, reduce_action_flow,
  review, unlocking, refreshing, reserving, signing, submission_start, reconciling, accepted,
  rejected, expired, ambiguous,
}

-- How far a phase is: the steps of a confirmation in the order in which it takes them, then the four
-- outcomes, none before another, and last the failure before the submission.
abbrev pub place : ActionFlowPhase → ℕ
place review = 0
place refreshing = 1
place unlocking = 2
place reserving = 3
place signing = 4
place submission_start = 5
place submitting = 6
place reconciling = 7
place accepted = 8
place rejected = 8
place expired = 8
place ambiguous = 8
place failed_before_submission = 9

-- Within one generation the second state is as far as the first or further; from before the
-- submission it goes one phase at a time, or fails, and after it does not fail.
pub record IsOnward (first second : ActionFlowState) : Type 0 where
  pub same : first.generation ≡ second.generation
  pub further : place first.phase ≤ place second.phase
  pub one_step :
      (place second.phase ≤ place first.phase + 1)
      ⊎ ((6 ≤ place first.phase) ⊎ (9 ≤ place second.phase))
  pub submitted : 6 ≤ place first.phase → place first.phase ≤ 8 → place second.phase ≤ 8
  pub journal : is_some first.journal_id ≡ true → is_some second.journal_id ≡ true
  pub ended : 8 ≤ place first.phase → second ≡ first

-- A new generation begins at the review or with the refresh.
abbrev pub IsRestart : ActionFlowState → ActionFlowState → Type 0
IsRestart first second = (first.generation + 1 ≡ second.generation) × (place second.phase ≤ 1)

stays : (s : ActionFlowState) → IsOnward s s
stays s = record {
  same = refl;
  further = omega arith;
  one_step = inl (omega arith);
  submitted = λ h k. k;
  journal = λ h. h;
  ended = λ h. refl;
}

moves :
    (s : ActionFlowState) (phase : ActionFlowPhase) (journal_id message : Option String)
    → place s.phase ≤ place phase
    → (place phase ≤ place s.phase + 1) ⊎ ((6 ≤ place s.phase) ⊎ (9 ≤ place phase))
    → (6 ≤ place s.phase → place s.phase ≤ 8 → place phase ≤ 8)
    → (is_some s.journal_id ≡ true → is_some journal_id ≡ true)
    → place s.phase < 8
    → IsOnward s (moved s phase journal_id message)
moves s phase journal_id message f o t j b = record {
  same = refl;
  further = f;
  one_step = o;
  submitted = t;
  journal = j;
  ended = λ h. absurd (omega (arith, b, h));
}

given_or_some :
    (given held : Option String) → is_some held ≡ true → is_some (given_or given held) ≡ true
given_or_some none held h = h
given_or_some (some g) held h = refl

next_place :
    (p q : ActionFlowPhase)
    → is_next (next_phase p) q ≡ true
    → (place q ≡ place p + 1) × (place p < 6)
next_place review q h = cc
next_place refreshing q h = ground arith
next_place unlocking q h = ground arith
next_place reserving q h = ground arith
next_place signing q h = ground arith
next_place submission_start q h = ground arith
next_place submitting q h = cc
next_place reconciling q h = cc
next_place accepted q h = cc
next_place rejected q h = cc
next_place expired q h = cc
next_place ambiguous q h = cc
next_place failed_before_submission q h = cc

outcome_place : (o : Outcome) → (8 ≤ place (outcome_phase o)) × (place (outcome_phase o) ≤ 8)
outcome_place accepted_outcome = (omega arith, omega arith)
outcome_place rejected_outcome = (omega arith, omega arith)
outcome_place expired_outcome = (omega arith, omega arith)
outcome_place ambiguous_outcome = (omega arith, omega arith)

before_place : (p : ActionFlowPhase) → is_before_submission p ≡ true → place p < 6
before_place review h = omega arith
before_place refreshing h = omega arith
before_place unlocking h = omega arith
before_place reserving h = omega arith
before_place signing h = omega arith
before_place submission_start h = omega arith
before_place submitting h = cc
before_place reconciling h = cc
before_place accepted h = cc
before_place rejected h = cc
before_place expired h = cc
before_place ambiguous h = cc
before_place failed_before_submission h = cc

pub step_lem :
    (s : ActionFlowState) (a : ActionFlowAction)
    → IsRestart s (reduce_action_flow s a) ⊎ IsOnward s (reduce_action_flow s a)
unfolding reduce_action_flow
step_lem s confirm = elim (Bool-cases (is_confirmable s.phase)) [
  | inl e ↦ rw e (inl (refl, omega arith))
  | inr e ↦ rw e (inr (stays s))
]
step_lem s (advance g p j) = elim (Bool-cases (is_current s g && is_next (next_phase s.phase) p)) [
  | inl e ↦
      let (h, k) = next_place s.phase p (ground (arith, e)) in
      rw e (
        inr (
          moves s p (given_or j s.journal_id) none (omega arith) (inl (omega arith))
            (λ l m. omega arith) (given_or_some j s.journal_id) (omega arith)))
  | inr e ↦ rw e (inr (stays s))
]
step_lem s (unresolved g j) = elim (Bool-cases (is_current s g && phase_eq s.phase submitting)) [
  | inl e ↦
      let h : place s.phase ≡ 6 = ground (arith, e) in
      rw e (
        inr (
          moves s reconciling (some j) _ (omega arith) (inl (omega arith)) (λ l m. omega arith)
            (λ x. refl) (omega (arith, h))))
  | inr e ↦ rw e (inr (stays s))
]
step_lem s (terminal g j o m) = elim (Bool-cases (is_current s g && is_open s.phase)) [
  | inl e ↦
      let h : (6 ≤ place s.phase) × (place s.phase ≤ 7) = ground (arith, e) in
      let (l, u) = outcome_place o in
      rw e (
        inr (
          moves s (outcome_phase o) (some j) m (omega (arith, h)) (inr (inl h.0)) (λ x y. u)
            (λ x. refl) (omega (arith, h))))
  | inr e ↦ rw e (inr (stays s))
]
step_lem s (fail_before_submission g j m) =
    elim (Bool-cases (is_current s g && is_before_submission s.phase)) [
      | inl e ↦
          let h = before_place s.phase (ground (arith, e)) in
          rw e (
            inr (
              moves s failed_before_submission (given_or j s.journal_id) (some m) (omega arith)
                (inr (inr (omega arith))) (λ x y. omega arith) (given_or_some j s.journal_id)
                (omega (arith, h))))
      | inr e ↦ rw e (inr (stays s))
    ]
step_lem s reset = inl (refl, omega arith)
