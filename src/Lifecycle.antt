-- ===== src/Lifecycle.antt =====
-- apps/mobile/src/core/lifecycle/controller.ts: `createAppLifecycleController`. A callback of the
-- options is an effect, in the order in which they are called; a callback that calls the controller
-- again is left out.
use hyper_trader.Common.{
  Bool, true, false, not, ◌&&◌, ◌||◌, Option, none, some, List, [], ◌∷◌, ◌++◌, if◌then◌else◌,
  opt_eq,
}
pub mod Observed

pub data AppVisibility : Type 0 where
  active inactive background : AppVisibility

pub data SessionLockReason : Type 0 where
  app_inactive app_background android_blur : SessionLockReason

pub data StreamStopReason : Type 0 where
  session_locked : SessionLockReason → StreamStopReason
  offline : StreamStopReason

pub data Effect : Type 0 where
  set_focused : Bool → Effect
  set_online : Bool → Effect
  lock_signer_session : SessionLockReason → Effect
  start_streams : Effect
  stop_streams : StreamStopReason → Effect

-- The variables of the controller.
pub record Lifecycle : Type 0 where
  pub visibility : Option AppVisibility
  pub online : Bool
  pub blurred : Bool
  pub streams_running : Bool

abbrev pub create_lifecycle : Bool → Lifecycle
create_lifecycle initial_online = record {
  visibility = none;
  online = initial_online;
  blurred = false;
  streams_running = false;
}

abbrev pub visibility_eq : AppVisibility → AppVisibility → Bool
visibility_eq active active = true
visibility_eq inactive inactive = true
visibility_eq background background = true
visibility_eq _ _ = false

abbrev pub is_active : Option AppVisibility → Bool
is_active (some active) = true
is_active _ = false

abbrev pub may_run_streams : Lifecycle → Bool
may_run_streams s = is_active s.visibility && (s.online && not s.blurred)

abbrev pub start_streams_if_allowed : Lifecycle → Lifecycle × List Effect
start_streams_if_allowed s =
    if not (may_run_streams s) || s.streams_running
    then (s, [])
    else (record s { streams_running = true }, start_streams ∷ [])

abbrev pub after_effect : Effect → Lifecycle × List Effect → Lifecycle × List Effect
after_effect effect (s, effects) = (s, effect ∷ effects)

-- What a loss of the foreground calls, whatever its reason.
abbrev pub hide : SessionLockReason → Lifecycle → Lifecycle × List Effect
hide reason s = (
  record s { streams_running = false },
  set_focused false ∷ lock_signer_session reason ∷ stop_streams (session_locked reason) ∷ [],
)

abbrev pub change_visibility : AppVisibility → Lifecycle → Lifecycle × List Effect
change_visibility active s =
    after_effect (set_focused true)
      (start_streams_if_allowed (record s { visibility = some active; blurred = false }))
change_visibility inactive s = hide app_inactive (record s { visibility = some inactive })
change_visibility background s = hide app_background (record s { visibility = some background })

unfoldable pub on_app_state_change : AppVisibility → Lifecycle → Lifecycle × List Effect
on_app_state_change next s =
    if opt_eq visibility_eq s.visibility (some next) then (s, []) else change_visibility next s

abbrev pub change_network : Bool → Lifecycle → Lifecycle × List Effect
change_network false s = (
  record s { online = false; streams_running = false },
  set_online false ∷ stop_streams offline ∷ [],
)
change_network true s =
    after_effect (set_online true) (start_streams_if_allowed (record s { online = true }))

abbrev pub bool_eq : Bool → Bool → Bool
bool_eq true b = b
bool_eq false b = not b

unfoldable pub on_network_change : Bool → Lifecycle → Lifecycle × List Effect
on_network_change next s = if bool_eq s.online next then (s, []) else change_network next s

unfoldable pub on_android_blur : Lifecycle → Lifecycle × List Effect
on_android_blur s = if s.blurred then (s, []) else hide android_blur (record s { blurred = true })

unfoldable pub on_android_focus : Lifecycle → Lifecycle × List Effect
on_android_focus s =
    if not s.blurred
    then (s, [])
    else if is_active s.visibility
    then after_effect (set_focused true) (start_streams_if_allowed (record s { blurred = false }))
    else (record s { blurred = false }, [])

pub data LifecycleEvent : Type 0 where
  app_state_change : AppVisibility → LifecycleEvent
  network_change : Bool → LifecycleEvent
  blur focus : LifecycleEvent

abbrev pub handle : LifecycleEvent → Lifecycle → Lifecycle × List Effect
handle (app_state_change next) s = on_app_state_change next s
handle (network_change next) s = on_network_change next s
handle blur s = on_android_blur s
handle focus s = on_android_focus s
