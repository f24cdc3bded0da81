-- ===== src/Lifecycle/Observed.antt =====
-- What the parts that the lifecycle controller calls have been told.
use hyper_trader.Common.{
  ◌≡◌, refl, sym, ap, ◌∙◌, subst, Bool, true, false, not, ◌&&◌, ◌||◌, Option, List, [], ◌∷◌, arith,
}
use hyper_trader.Lifecycle.{
  AppVisibility, Effect, set_focused, set_online, lock_signer_session, start_streams, stop_streams,
  Lifecycle, create_lifecycle, is_active, may_run_streams, on_app_state_change, on_network_change,
  on_android_blur, on_android_focus, LifecycleEvent, app_state_change, network_change, blur, focus,
  handle,
}

-- What is known from the calls alone. The session counts as locked until the application is focused,
-- and streams as restarted once they are started while they run.
pub record Observed : Type 0 where
  pub is_focused : Bool
  pub is_online : Bool
  pub is_streaming : Bool
  pub is_locked : Bool
  pub is_restarted : Bool

abbrev pub see : Effect → Observed → Observed
see (set_focused true) o = record o { is_focused = true; is_locked = false }
see (set_focused false) o = record o { is_focused = false }
see (set_online online) o = record o { is_online = online }
see (lock_signer_session reason) o = record o { is_locked = true }
see start_streams o = record o {
  is_streaming = true;
  is_restarted = o.is_restarted || o.is_streaming;
}
see (stop_streams reason) o = record o { is_streaming = false }

unfoldable pub see_all : List Effect → Observed → Observed
see_all [] o = o
see_all (effect ∷ effects) o = see_all effects (see effect o)

abbrev pub is_shown : Lifecycle → Bool
is_shown s = is_active s.visibility && not s.blurred

-- What ought to be known in a state.
abbrev pub seen : Lifecycle → Observed
seen s = record {
  is_focused = is_shown s;
  is_online = s.online;
  is_streaming = may_run_streams s;
  is_locked = not (is_shown s);
  is_restarted = false;
}

-- The state after a sequence of events, with what has been observed of the calls.
unfoldable pub observe : List LifecycleEvent → Lifecycle → Observed → Lifecycle × Observed
observe [] s o = (s, o)
observe (event ∷ events) s o = observe events (handle event s).0 (see_all (handle event s).1 o)

-- A state whose streams run exactly if they may.
abbrev at : Option AppVisibility → Bool → Bool → Lifecycle
at visibility online blurred = record {
  visibility = visibility;
  online = online;
  blurred = blurred;
  streams_running = is_active visibility && (online && not blurred);
}

record IsSeen (o : Observed) (before : Lifecycle × List Effect) : Type 0 where
  running : before.0.streams_running ≡ may_run_streams before.0
  all_seen : see_all before.1 o ≡ seen before.0

on_android_blur-IsSeen :
    (visibility : Option AppVisibility) (online blurred : Bool)
    → IsSeen (seen (at visibility online blurred)) (on_android_blur (at visibility online blurred))
unfolding on_android_blur see_all
on_android_blur-IsSeen visibility online blurred = record {
  running = ground arith;
  all_seen = ground arith;
}

on_android_focus-IsSeen :
    (visibility : Option AppVisibility) (online blurred : Bool)
    → IsSeen (seen (at visibility online blurred)) (on_android_focus (at visibility online blurred))
unfolding on_android_focus see_all
on_android_focus-IsSeen visibility online blurred = record {
  running = ground arith;
  all_seen = ground arith;
}

on_network_change-IsSeen :
    (next : Bool) (visibility : Option AppVisibility) (online blurred : Bool)
    → IsSeen
        (seen (at visibility online blurred))
        (on_network_change next (at visibility online blurred))
unfolding on_network_change see_all
on_network_change-IsSeen next visibility online blurred = record {
  running = ground arith;
  all_seen = ground arith;
}

on_app_state_change-IsSeen :
    (next : AppVisibility) (visibility : Option AppVisibility) (online blurred : Bool)
    → IsSeen
        (seen (at visibility online blurred))
        (on_app_state_change next (at visibility online blurred))
unfolding on_app_state_change see_all
on_app_state_change-IsSeen next visibility online blurred = record {
  running = ground arith;
  all_seen = ground arith;
}

handle-IsSeen :
    (event : LifecycleEvent) (visibility : Option AppVisibility) (online blurred : Bool)
    → IsSeen (seen (at visibility online blurred)) (handle event (at visibility online blurred))
handle-IsSeen (app_state_change next) visibility online blurred =
    on_app_state_change-IsSeen next visibility online blurred
handle-IsSeen (network_change next) visibility online blurred =
    on_network_change-IsSeen next visibility online blurred
handle-IsSeen blur visibility online blurred = on_android_blur-IsSeen visibility online blurred
handle-IsSeen focus visibility online blurred = on_android_focus-IsSeen visibility online blurred

pub record IsTold (now : Lifecycle × Observed) : Type 0 where
  pub running : now.0.streams_running ≡ may_run_streams now.0
  pub told : now.1 ≡ seen now.0

observe-IsTold :
    (events : List LifecycleEvent) (s : Lifecycle) (o : Observed)
    → s.streams_running ≡ may_run_streams s
    → o ≡ seen s
    → IsTold (observe events s o)
unfolding observe
observe-IsTold [] s o r e = record { running = r; told = e }
observe-IsTold (event ∷ events) s o r e =
    let own : at s.visibility s.online s.blurred ≡ s =
      ap
        (λ (b : Bool). record {
          visibility = s.visibility;
          online = s.online;
          blurred = s.blurred;
          streams_running = b;
        })
        (sym r) in
    let step =
      subst (λ t. IsSeen (seen t) (handle event t)) own
        (handle-IsSeen event s.visibility s.online s.blurred) in
    observe-IsTold events (handle event s).0 (see_all (handle event s).1 o) step.running
      (ap (see_all (handle event s).1) e ∙ step.all_seen)

-- Whatever events a new controller handles, in whatever order: its own record of the streams is what
-- `isForeground` answers; and the calls that it has made, read in order, say that the application is
-- focused exactly if it is active and not blurred, name the state of the network, have the streams
-- running exactly if `isForeground`, never start streams that run, and have locked the signer session
-- after every loss of the focus.
pub create_lifecycle-IsTold :
    (online : Bool) (events : List LifecycleEvent)
    → IsTold (observe events (create_lifecycle online) (seen (create_lifecycle online)))
create_lifecycle-IsTold online events =
    observe-IsTold events (create_lifecycle online) (seen (create_lifecycle online)) refl refl
