-- ===== src/Delivery/Settled.antt =====
-- What a run of the delivery worker leaves of a claim.
use hyper_trader.Common.{
  ℕ, ◌≡◌, Bool, true, false, not, ◌&&◌, ◌||◌, List, [], ◌∷◌, arith, Result, ok, err, Error, is_ok,
  leb,
}
use hyper_trader.Common.Runs.{◌>>=◌, ◌>>◌, reading, catching}
use hyper_trader.Delivery.{
  ErrorClass, process_crash, DeliveryCall, submission_started, abandoned, outcome_unknown,
  provider_sent, provider_accepted, provider_rejected, Delivery, Answers, deliver, handle_claim,
  initial_delivery,
}

-- Calls are read from the last one. Nothing but the start of the submission has been called.
abbrev pub is_started : List DeliveryCall → Bool
is_started (submission_started ∷ []) = true
is_started _ = false

abbrev pub is_requested : ℕ → List DeliveryCall → Bool
is_requested now (provider_sent deadline ∷ calls) = not (leb deadline now) && is_started calls
is_requested now _ = false

-- A first record of an outcome, which may have failed.
abbrev pub is_recorded : ℕ → List DeliveryCall → Bool
is_recorded now (provider_accepted ticket ∷ calls) = is_requested now calls
is_recorded now (provider_rejected code ∷ calls) = is_requested now calls || is_started calls
is_recorded now _ = false

-- The outcome that counts: it is accepted or unknown only after a request.
abbrev pub is_settled : ℕ → List DeliveryCall → Bool
is_settled now (provider_accepted ticket ∷ calls) = is_requested now calls
is_settled now (provider_rejected code ∷ calls) =
    is_requested now calls || (is_started calls || is_recorded now calls)
is_settled now (outcome_unknown ∷ provider_sent deadline ∷ calls) =
    is_requested now (provider_sent deadline ∷ calls)
is_settled now (outcome_unknown ∷ made ∷ provider_sent deadline ∷ calls) =
    is_recorded now (made ∷ provider_sent deadline ∷ calls)
is_settled now _ = false

abbrev pub is_abandoned : List DeliveryCall → Bool
is_abandoned (abandoned ∷ []) = true
is_abandoned (abandoned ∷ calls) = is_started calls
is_abandoned _ = false

-- Every request follows nothing but the start of the submission, so there is one at most.
abbrev pub is_sent_once : ℕ → List DeliveryCall → Bool
is_sent_once now [] = true
is_sent_once now (provider_sent deadline ∷ calls) =
    is_requested now (provider_sent deadline ∷ calls)
is_sent_once now (made ∷ calls) = is_sent_once now calls

abbrev pub is_crash : ErrorClass → Bool
is_crash process_crash = true
is_crash _ = false

abbrev pub is_closed : (Error → ErrorClass) → Answers → Result Bool × Delivery → Bool
is_closed class_of a (ok handled, s) = handled && is_settled a.now s.calls
is_closed class_of a (err error, s) =
    is_crash (class_of error) || (not (is_ok a.recorded_late) || is_abandoned s.calls)

-- Whatever the store, the provider and the hooks answer: a run that returns has handled the claim and
-- has recorded an outcome last, which is accepted or unknown only after a request to the provider; a
-- run that throws has met a crash of the process, has failed to record after an error, or has
-- abandoned the claim without a request. In every case the provider is asked once at most, after the
-- start of the submission was marked and before the deadline.
pub handle_claim-IsClosed :
    (class_of : Error → ErrorClass) (a : Answers)
    → (is_closed class_of a (handle_claim class_of a initial_delivery) ≡ true)
      × (is_sent_once a.now (handle_claim class_of a initial_delivery).1.calls ≡ true)
unfolding ◌>>=◌ ◌>>◌ reading catching deliver handle_claim
handle_claim-IsClosed class_of a = (ground arith, ground arith)
