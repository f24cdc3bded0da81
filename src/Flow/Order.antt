-- ===== src/Flow/Order.antt =====
-- The order of the phases that a flow goes through.
use hyper_trader.Flow.Steps.{place, IsOnward, IsRestart, step_lem}
use hyper_trader.Common.{
  ℕ, ◌≤◌, ◌<◌, ◌≡◌, ◌⊎◌, inl, inr, refl, ap, ◌∙◌, true, List, [], ◌∷◌, ◌++◌, arith, ◌==◌, is_some,
  Bool-cases, Bool, any, false,
}
use hyper_trader.Flow.{
  ActionFlowPhase, ActionFlowState, initial_action_flow, ActionFlowAction, confirm, advance,
  unresolved, terminal, fail_before_submission, reset, reduce_action_flow, run_flow,
}

-- Within one generation: the second state is as far as the first or further, is no failure before the
-- submission once the submission was begun, names a journal entry if the first does, and is the first
-- once that has ended.
pub record IsKept (first second : ActionFlowState) : Type 0 where
  pub same_generation : first.generation ≡ second.generation
  pub no_further_back : place first.phase ≤ place second.phase
  pub no_failure : 6 ≤ place first.phase → place first.phase ≤ 8 → place second.phase ≤ 8
  pub keeps_journal : is_some first.journal_id ≡ true → is_some second.journal_id ≡ true
  pub stays_ended : 8 ≤ place first.phase → second ≡ first

joined :
    (s t e : ActionFlowState)
    → IsRestart s t ⊎ IsOnward s t
    → (t.generation < e.generation) ⊎ IsKept t e
    → (s.generation < e.generation) ⊎ IsKept s e
joined s t e (inl (g, _)) (inl h) = inl (omega (arith, g, h))
joined s t e (inl (g, _)) (inr k) = inl (omega (arith, g, k.same_generation))
joined s t e (inr o) (inl h) = inl (omega (arith, o.same, h))
joined s t e (inr o) (inr k) = inr (record {
  same_generation = o.same ∙ k.same_generation;
  no_further_back = omega (arith, o.further, k.no_further_back);
  no_failure = λ h m. k.no_failure (omega (arith, o.further, h)) (o.submitted h m);
  keeps_journal = λ h. k.keeps_journal (o.journal h);
  stays_ended = λ h. k.stays_ended (omega (arith, o.further, h)) ∙ o.ended h;
})

kept_lem :
    (s : ActionFlowState) (actions : List ActionFlowAction)
    → (s.generation < (run_flow s actions).generation) ⊎ IsKept s (run_flow s actions)
unfolding run_flow
kept_lem s [] = inr (record {
  same_generation = refl;
  no_further_back = omega arith;
  no_failure = λ h k. k;
  keeps_journal = λ h. h;
  stays_ended = λ h. refl;
})
kept_lem s (a ∷ rest) =
    joined s (reduce_action_flow s a) (run_flow (reduce_action_flow s a) rest) (step_lem s a)
      (kept_lem (reduce_action_flow s a) rest)

-- An action that starts a generation, or names this one.
abbrev pub is_for : ℕ → ActionFlowAction → Bool
is_for n confirm = true
is_for n (advance g _ _) = n == g
is_for n (unresolved g _) = n == g
is_for n (terminal g _ _ _) = n == g
is_for n (fail_before_submission g _ _) = n == g
is_for n reset = true

ignored :
    (s : ActionFlowState) (a : ActionFlowAction)
    → is_for s.generation a ≡ false
    → reduce_action_flow s a ≡ s
unfolding reduce_action_flow
ignored s confirm h = cc
ignored s (advance g p j) h = rw h refl
ignored s (unresolved g j) h = rw h refl
ignored s (terminal g j o m) h = rw h refl
ignored s (fail_before_submission g j m) h = rw h refl
ignored s reset h = cc

ignored_lem :
    (s : ActionFlowState) (actions : List ActionFlowAction)
    → (any (is_for s.generation) actions ≡ true) ⊎ (run_flow s actions ≡ s)
unfolding run_flow
ignored_lem s [] = inr refl
ignored_lem s (a ∷ rest) = elim (Bool-cases (is_for s.generation a)) [
  | inl own ↦ inl (rw own refl)
  | inr other ↦
      let same = ignored s a other in
      elim (ignored_lem s rest) [
        | inl some_own ↦ inl (rw (other, some_own) refl)
        | inr none_own ↦ inr (ap (λ t. run_flow t rest) same ∙ none_own)
      ]
]

-- Whatever actions are dispatched, in whatever order and with whatever generations, a flow is either
-- in a later generation or it has not gone back: its phase is the same or one that comes later, from
-- the submission on it cannot be reported as failed before the submission, it names a journal entry
-- if it has named one, and once it has failed or has an outcome it is unchanged. If none of the
-- actions starts a generation or names the flow's own, the flow is unchanged.
pub run_flow-IsKept :
    (s : ActionFlowState) (actions : List ActionFlowAction)
    → ((s.generation < (run_flow s actions).generation) ⊎ IsKept s (run_flow s actions))
      × ((any (is_for s.generation) actions ≡ true) ⊎ (run_flow s actions ≡ s))
run_flow-IsKept s actions = (kept_lem s actions, ignored_lem s actions)

-- Some first part of the actions brings the flow to a place, in the generation that it ends in.
pub record IsVisited (s : ActionFlowState) (actions : List ActionFlowAction) (k : ℕ) : Type 0 where
  pub before : List ActionFlowAction
  pub after : List ActionFlowAction
  pub parts : before ++ after ≡ actions
  pub at_place : place (run_flow s before).phase ≡ k
  pub in_generation : (run_flow s before).generation ≡ (run_flow s actions).generation

IsVisited-later :
    (s : ActionFlowState) (a : ActionFlowAction) (rest : List ActionFlowAction) (k : ℕ)
    → IsVisited (reduce_action_flow s a) rest k
    → IsVisited s (a ∷ rest) k
unfolding run_flow
IsVisited-later s a rest k v = record {
  before = a ∷ v.before;
  after = v.after;
  parts = ap (λ t. a ∷ t) v.parts;
  at_place = v.at_place;
  in_generation = v.in_generation;
}

IsVisited-now :
    (s : ActionFlowState) (a : ActionFlowAction) (rest : List ActionFlowAction) (k : ℕ)
    → place (reduce_action_flow s a).phase ≡ k
    → (reduce_action_flow s a).generation ≡ (run_flow (reduce_action_flow s a) rest).generation
    → IsVisited s (a ∷ rest) k
unfolding run_flow
IsVisited-now s a rest k p g = record {
  before = a ∷ [];
  after = rest;
  parts = refl;
  at_place = p;
  in_generation = g;
}

-- The state before the place or of an earlier generation, the next one, and the end of the run.
jump_lem :
    (s t e : ActionFlowState) (k : ℕ)
    → 1 ≤ k
    → k ≤ 6
    → place e.phase ≤ 8
    → (s.generation < e.generation) ⊎ (place s.phase < k)
    → IsRestart s t ⊎ IsOnward s t
    → (t.generation < e.generation) ⊎ IsKept t e
    → ((t.generation < e.generation) ⊎ (place t.phase < k))
      ⊎ ((place t.phase ≡ k) × (t.generation ≡ e.generation))
jump_lem s t e k l u f h o (inl g) = inl (inl g)
jump_lem s t e k l u f h (inl (g, p)) (inr n) = elim (Bool-cases (place t.phase == k)) [
  | inl same ↦ inr (ground (arith, same), n.same_generation)
  | inr other ↦ inl (inr (ground (arith, other, p, l)))
]
jump_lem s t e k l u f (inl g) (inr o) (inr n) =
    absurd (omega (arith, g, o.same, n.same_generation))
jump_lem s t e k l u f (inr h) (inr o) (inr n) = elim (Bool-cases (place t.phase == k)) [
  | inl same ↦ inr (ground (arith, same), n.same_generation)
  | inr other ↦ inl (inr (ground (arith, other, h, u, f, o.one_step, n.no_further_back)))
]

visited_lem :
    (s : ActionFlowState) (actions : List ActionFlowAction) (k : ℕ)
    → 1 ≤ k
    → k ≤ 6
    → k ≤ place (run_flow s actions).phase
    → place (run_flow s actions).phase ≤ 8
    → (s.generation < (run_flow s actions).generation) ⊎ (place s.phase < k)
    → IsVisited s actions k
unfolding run_flow
visited_lem s [] k l u p f (inl h) = absurd (omega (arith, h))
visited_lem s [] k l u p f (inr h) = absurd (omega (arith, h, p))
visited_lem s (a ∷ rest) k l u p f h =
    let t = reduce_action_flow s a in
    elim (jump_lem s t (run_flow t rest) k l u f h (step_lem s a) (kept_lem t rest)) [
      | inl early ↦ IsVisited-later s a rest k (visited_lem t rest k l u p f early)
      | inr (here, same) ↦ IsVisited-now s a rest k here same
    ]

-- A flow that starts as the app starts it and ends at or after some phase from the refresh through the
-- submission, and not failed, was in that phase in the same generation: no step of refresh, unlock,
-- reservation, signing and submission is skipped, whatever actions are dispatched.
pub run_flow-IsVisited :
    (actions : List ActionFlowAction) (phase : ActionFlowPhase)
    → 1 ≤ place phase
    → place phase ≤ 6
    → place phase ≤ place (run_flow initial_action_flow actions).phase
    → place (run_flow initial_action_flow actions).phase ≤ 8
    → IsVisited initial_action_flow actions (place phase)
run_flow-IsVisited actions phase l u p f =
    visited_lem initial_action_flow actions (place phase) l u p f (inr (omega (arith, l)))
