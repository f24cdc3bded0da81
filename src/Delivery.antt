-- ===== src/Delivery.antt =====
-- apps/api/src/outbox/delivery-worker.ts: `runOnce` of `NotificationDeliveryWorker`.
-- What the store, the provider and the hooks answer is an input, and what they are asked is recorded.
use hyper_trader.Common.{
  ℕ, ◌+◌, ltb, Bool, true, false, not, String, Option, none, some, List, [], ◌∷◌, if◌then◌else◌,
  leb, Result, ok, err, Error,
}
use hyper_trader.Common.Runs.{Run, ◌>>=◌, ◌>>◌, return, query, reading, catching}
pub mod Settled

-- What `instanceof` tells of an error.
pub data ErrorClass : Type 0 where
  process_crash authorization_error deadline_error other_error : ErrorClass

pub data DeliveryRejectionCode : Type 0 where
  authorization_revoked provider_deadline_expired token_unavailable : DeliveryRejectionCode
  provider_error : String → DeliveryRejectionCode

pub data ExpoSendResult : Type 0 where
  accepted : (ticket_id : String) → ExpoSendResult
  rejected : (error_code : String) → ExpoSendResult

-- The calls of the store that write, and the request to the provider.
pub data DeliveryCall : Type 0 where
  submission_started abandoned outcome_unknown : DeliveryCall
  provider_sent : (provider_deadline_at : ℕ) → DeliveryCall
  provider_accepted : (ticket_id : String) → DeliveryCall
  provider_rejected : DeliveryRejectionCode → DeliveryCall

-- `marked` and `providerWritePossible` of one run, and the calls that it has made, the last one first.
pub record Delivery : Type 0 where
  pub marked : Bool
  pub provider_write_possible : Bool
  pub calls : List DeliveryCall

-- What is answered in one run: by each hook, by the store and by the provider. `recorded` is the
-- answer to the record of an outcome, `recorded_late` to the one that follows an error.
pub record Answers : Type 0 where
  pub after_claim : Result (Unit {0})
  pub started : Result (Unit {0})
  pub after_submission_started : Result (Unit {0})
  pub push_token : Result String
  pub authorization : Result ℕ
  pub now : ℕ
  pub response : Result ExpoSendResult
  pub after_provider_response : Result (Unit {0})
  pub recorded : Result (Unit {0})
  pub recorded_late : Result (Unit {0})

abbrev pub record_call : {A : Type 0} → DeliveryCall → Result A → Run Delivery A
record_call made answer s = (answer, record s { calls = made ∷ s.calls })

abbrev pub await_answer : {A : Type 0} → Result A → Run Delivery A
await_answer answer s = (answer, s)

abbrev pub set_marked : Run Delivery (Unit {0})
set_marked s = (ok tt, record s { marked = true })

abbrev pub set_provider_write_possible : Run Delivery (Unit {0})
set_provider_write_possible s = (ok tt, record s { provider_write_possible = true })

-- A record of the outcome; then the run has handled the claim.
abbrev pub settle_claim : DeliveryCall → Result (Unit {0}) → Run Delivery Bool
settle_claim made answer = record_call made answer >>= λ _. return true

abbrev pub record_response : Answers → ExpoSendResult → Run Delivery Bool
record_response a (accepted ticket_id) = settle_claim (provider_accepted ticket_id) a.recorded
record_response a (rejected error_code) =
    settle_claim (provider_rejected (provider_error error_code)) a.recorded

-- The request is made only before the deadline.
abbrev pub send_before : Answers → ℕ → Run Delivery Bool
send_before a provider_deadline_at =
    if leb provider_deadline_at a.now
    then settle_claim (provider_rejected provider_deadline_expired) a.recorded
    else (do
      set_provider_write_possible
      result ← record_call (provider_sent provider_deadline_at) a.response
      await_answer a.after_provider_response
      record_response a result)

-- The body of `try`.
unfoldable pub deliver : Answers → Run Delivery Bool
deliver a = do
  await_answer a.after_claim
  record_call submission_started a.started
  set_marked
  await_answer a.after_submission_started
  push_token ← await_answer a.push_token
  provider_deadline_at ← await_answer a.authorization
  send_before a provider_deadline_at

abbrev pub settle_error : Answers → ErrorClass → Delivery → Run Delivery Bool
settle_error a authorization_error s =
    settle_claim (provider_rejected authorization_revoked) a.recorded_late
settle_error a deadline_error s =
    settle_claim (provider_rejected provider_deadline_expired) a.recorded_late
settle_error a _ s =
    if not s.provider_write_possible
    then settle_claim (provider_rejected token_unavailable) a.recorded_late
    else settle_claim outcome_unknown a.recorded_late

abbrev pub abandon : Answers → Error → Run Delivery Bool
abandon a error = record_call abandoned a.recorded_late >>= λ _. await_answer (err error)

-- The body of `catch`.
abbrev pub handle_error :
    (Error → ErrorClass) → Answers → Error → ErrorClass → Delivery → Run Delivery Bool
handle_error class_of a error process_crash s = await_answer (err error)
handle_error class_of a error class s =
    if not s.marked then abandon a error else settle_error a class s

unfoldable pub handle_claim : (Error → ErrorClass) → Answers → Run Delivery Bool
handle_claim class_of a =
    catching (deliver a) (λ error. reading (handle_error class_of a error (class_of error)))

abbrev pub initial_delivery : Delivery
initial_delivery = record { marked = false; provider_write_possible = false; calls = [] }

abbrev pub dispatch_recovery_interval_ms : ℕ
dispatch_recovery_interval_ms = 10_000

-- The time of the next recovery, after a run at a time.
abbrev pub next_recovery : (now next_recovery_at : ℕ) → ℕ
next_recovery now next_recovery_at =
    if ltb now next_recovery_at then next_recovery_at else now + dispatch_recovery_interval_ms

-- The recovery of expired dispatches, if it is due, with the answer of the store.
abbrev pub recover_if_due : (now next_recovery_at : ℕ) → Result (Unit {0}) → Result (Unit {0})
recover_if_due now next_recovery_at recovered =
    if ltb now next_recovery_at then ok tt else recovered

abbrev pub handle_next : (Error → ErrorClass) → Option Answers → Run Delivery Bool
handle_next class_of none = return false
handle_next class_of (some a) = handle_claim class_of a

-- `requestRecovery`: the next run recovers.
abbrev pub request_recovery : ℕ
request_recovery = 0

-- One run of a worker that recovers from `next_recovery_at` on, with the next such time. The claim is
-- the answer to what is claimed.
unfoldable pub run_once :
    (Error → ErrorClass)
    → (now next_recovery_at : ℕ) → Result (Unit {0})
    → Result (Option Answers)
    → (Result Bool × Delivery) × ℕ
run_once class_of now next_recovery_at recovered claim = (
  (await_answer (recover_if_due now next_recovery_at recovered) >>= λ _.
        await_answer claim >>= handle_next class_of)
      initial_delivery,
  next_recovery now next_recovery_at,
)
