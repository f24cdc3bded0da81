-- ===== src/Orchestrator/Accounts.antt =====
-- The submissions of a whole history against the journal.
use hyper_trader.Common.{
  ℕ, suc, ◌≤◌, ◌<◌, ◌≡◌, inl, inr, refl, ap, ◌∙◌, subst, Bool, true, false, String, List, [], ◌∷◌,
  arith, Error, Option, str_eq, str_eq_iff, Bool-cases, if◌then◌else◌, count_if, ltb,
}
use hyper_trader.Persistence.Signers.{External}
use hyper_trader.Persistence.Calls.{Call}
use hyper_trader.Persistence.Progress.{IsLater, is_past_prepared}
use hyper_trader.Reconciler.Later.{run-IsLater}
use hyper_trader.Orchestrator.{
  World, Submission, Event, confirmed, acted, restarted, run_event, run_events, confirm_action,
}
use hyper_trader.Orchestrator.Sent.{confirm_action-IsOneSent}
use hyper_trader.Orchestrator.Once.{IsSubmitted}

-- How often an action has been submitted.
abbrev pub times_sent : String → World → ℕ
times_sent id w = count_if (λ s. str_eq s.journal_id id) w.sent

-- Every action has been submitted once at most, and what has been is past `prepared` in the journal.
pub record IsAccounted (w : World) : Type 0 where
  pub once : (id : String) → times_sent id w ≤ 1
  pub known : (id : String) → 0 < times_sent id w → is_past_prepared id w.repository.database ≡ true

kept-IsAccounted :
    (w v : World)
    → v.sent ≡ w.sent
    → IsLater w.repository.database v.repository.database
    → IsAccounted w
    → IsAccounted v
kept-IsAccounted w v e l a =
    let same : (id : String) → times_sent id v ≡ times_sent id w =
      λ id. ap (count_if (λ s. str_eq s.journal_id id)) e in
    record {
      once = λ id. omega (arith, same id, a.once id);
      known = λ id h. l id (a.known id (omega (arith, same id, h)));
    }

-- The count for one more submission.
counted :
    (w v : World) (s : Submission) (id : String)
    → v.sent ≡ s ∷ w.sent
    → (b : Bool) → str_eq s.journal_id id ≡ b
    → times_sent id v ≡ (if b then suc (times_sent id w) else times_sent id w)
counted w v s id e b h =
    ap (count_if (λ t. str_eq t.journal_id id)) e
    ∙ ap (λ c. if c then suc (times_sent id w) else times_sent id w) h

apart : {b : Bool} → b ≡ true → b ≡ false → ⊥
apart {b} t f = cc

unsubmitted_zero :
    (w : World) (id : String)
    → IsAccounted w
    → is_past_prepared id w.repository.database ≡ false
    → times_sent id w ≡ 0
unsubmitted_zero w id a h = elim (Bool-cases (ltb 0 (times_sent id w))) [
  | inl some_sent ↦ absurd (apart (a.known id (ground (arith, some_sent))) h)
  | inr none_sent ↦ ground (arith, none_sent)
]

submitted-IsAccounted :
    (w v : World) (s : Submission)
    → IsSubmitted s w v
    → IsLater w.repository.database v.repository.database
    → IsAccounted w
    → IsAccounted v
submitted-IsAccounted w v s h l a = record {
  once = λ id. once id (str_eq s.journal_id id) refl;
  known = λ id p. known id (str_eq s.journal_id id) refl p;
}
  where
    here : (id : String) → str_eq s.journal_id id ≡ true → s.journal_id ≡ id
    here id e = (str_eq_iff s.journal_id id).0 e

    once : (id : String) (b : Bool) → str_eq s.journal_id id ≡ b → times_sent id v ≤ 1
    once id true e =
        let before = unsubmitted_zero w id a (
          subst (λ i. is_past_prepared i w.repository.database ≡ false) (here id e)
            h.unsubmitted) in
        omega (arith, counted w v s id h.added true e, before)
    once id false e = omega (arith, counted w v s id h.added false e, a.once id)

    known :
        (id : String) (b : Bool)
        → str_eq s.journal_id id ≡ b
        → 0 < times_sent id v
        → is_past_prepared id v.repository.database ≡ true
    known id true e p =
        subst (λ i. is_past_prepared i v.repository.database ≡ true) (here id e) h.marked
    known id false e p = l id (a.known id (omega (arith, counted w v s id h.added false e, p)))

module _ (x : External) (failure_code : Error → Option String) where
  run_event-IsAccounted :
      (event : Event) (w : World) → IsAccounted w → IsAccounted (run_event x failure_code event w)
  run_event-IsAccounted (confirmed script) w a =
      let one = confirm_action-IsOneSent x failure_code script w in
      elim one.at_most_one [
        | inl same ↦ kept-IsAccounted w (confirm_action x failure_code script w).1 same one.later a
        | inr (s, h) ↦
            submitted-IsAccounted w (confirm_action x failure_code script w).1 s h one.later a
      ]
  run_event-IsAccounted (acted others) w a =
      kept-IsAccounted w (run_event x failure_code (acted others) w) refl
        (run-IsLater x others.calls w.repository) a
  run_event-IsAccounted restarted w a =
      kept-IsAccounted w (run_event x failure_code restarted w) refl
        (run-IsLater x (Call.restart ∷ []) w.repository) a

  -- Over any history of confirmations, restarts of the process and other calls of the repositories,
  -- every action is submitted to the exchange once at most, and the journal holds what has been
  -- submitted past `prepared`, if that was so before.
  pub run_events-IsAccounted :
      (events : List Event) (w : World)
      → IsAccounted w
      → IsAccounted (run_events x failure_code events w)
  run_events-IsAccounted [] w a = a
  run_events-IsAccounted (event ∷ events) w a =
      run_events-IsAccounted events (run_event x failure_code event w)
        (run_event-IsAccounted event w a)
