-- ===== src/Orchestrator/Once.antt =====
-- Steps of a confirmation that submit at most once, and how they are put together.
use hyper_trader.Common.{
  ◌≡◌, ◌⊎◌, inl, inr, ap, ◌∙◌, Bool, true, false, String, ◌∷◌, Result, ok, err, Error, Bool-cases,
}
use hyper_trader.Common.Runs.{Run, passed, handled, ◌>>=◌, ◌>>◌, reading, catching}
use hyper_trader.Persistence.Progress.{IsLater, is_past_prepared}
use hyper_trader.Persistence.Later.{IsLater-trans}
use hyper_trader.Orchestrator.{World, Submission}
use hyper_trader.Orchestrator.Effects.{IsKept, IsQuiet}

-- One submission, of an action that was not past `prepared` and is now.
pub record IsSubmitted (s : Submission) (w w' : World) : Type 0 where
  pub added : w'.sent ≡ s ∷ w.sent
  pub unsubmitted : is_past_prepared s.journal_id w.repository.database ≡ false
  pub marked : is_past_prepared s.journal_id w'.repository.database ≡ true

-- Nothing is submitted, or one submission is.
pub record IsOneSent (w w' : World) : Type 0 where
  pub later : IsLater w.repository.database w'.repository.database
  pub at_most_one : (w'.sent ≡ w.sent) ⊎ ((s : Submission) × IsSubmitted s w w')

unfoldable pub SendsOne : {A : Type 0} → Run World A → Type 0
SendsOne call = (w : World) → IsOneSent w (call w).1

past_earlier :
    (w v : World) (id : String)
    → IsLater w.repository.database v.repository.database
    → is_past_prepared id v.repository.database ≡ false
    → is_past_prepared id w.repository.database ≡ false
past_earlier w v id l h = elim (Bool-cases (is_past_prepared id w.repository.database)) [
  | inl past ↦ absurd (both (l id past) h)
  | inr unsent ↦ unsent
]
  where
    both : {b : Bool} → b ≡ true → b ≡ false → ⊥
    both {b} t f = cc

before_sent : (w v u : World) → IsKept w v → IsOneSent v u → IsOneSent w u
before_sent w v u (e, l) o = record {
  later = IsLater-trans w.repository.database v.repository.database u.repository.database l o.later;
  at_most_one = elim o.at_most_one [
    | inl same ↦ inl (same ∙ e)
    | inr (s, h) ↦ inr (
      s,
      record {
        added = h.added ∙ ap (λ t. s ∷ t) e;
        unsubmitted = past_earlier w v s.journal_id l h.unsubmitted;
        marked = h.marked;
      },
    )
  ];
}

pub after_sent : (w v u : World) → IsOneSent w v → IsKept v u → IsOneSent w u
after_sent w v u o (e, l) = record {
  later = IsLater-trans w.repository.database v.repository.database u.repository.database o.later l;
  at_most_one = elim o.at_most_one [
    | inl same ↦ inl (e ∙ same)
    | inr (s, h) ↦ inr (
      s,
      record { added = e ∙ h.added; unsubmitted = h.unsubmitted; marked = l s.journal_id h.marked },
    )
  ];
}

pub none_sent : (w v : World) → IsKept w v → IsOneSent w v
none_sent w v (e, l) = record { later = l; at_most_one = inl e }

pub >>=-SendsOne :
    {A B : Type 0} (first : Run World A) (continue : A → Run World B)
    → IsQuiet first
    → ((a : A) → SendsOne (continue a))
    → SendsOne (first >>= continue)
unfolding ◌>>=◌ IsQuiet SendsOne
>>=-SendsOne {A} {B} first continue h k w = go (first w) (h w)
  where
    go : (done : Result A × World) → IsKept w done.1 → IsOneSent w (passed done continue).1
    go (err thrown, v) l = none_sent w v l
    go (ok a, v) l = before_sent w v (continue a v).1 l (k a v)

pub >>-SendsOne :
    {A B : Type 0} (first : Run World A) (rest : Run World B)
    → IsQuiet first
    → SendsOne rest
    → SendsOne (first >> rest)
unfolding ◌>>◌
>>-SendsOne first rest h k = >>=-SendsOne first _ h (λ _. k)

pub catching-SendsOne :
    {A : Type 0} (first : Run World A) (handler : Error → Run World A)
    → SendsOne first
    → ((e : Error) → IsQuiet (handler e))
    → SendsOne (catching first handler)
unfolding catching IsQuiet SendsOne
catching-SendsOne {A} first handler h k w = go (first w) (h w)
  where
    go : (done : Result A × World) → IsOneSent w done.1 → IsOneSent w (handled done handler).1
    go (err thrown, v) o = after_sent w v (handler thrown v).1 o (k thrown v)
    go (ok a, v) o = o

pub reading-SendsOne :
    {A : Type 0} (body : World → Run World A)
    → ((w : World) → SendsOne (body w))
    → SendsOne (reading body)
unfolding reading SendsOne
reading-SendsOne body h w = h w w
