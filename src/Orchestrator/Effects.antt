-- ===== src/Orchestrator/Effects.antt =====
-- Steps of a confirmation that submit nothing, and how they are put together.
use hyper_trader.Common.{
  ◌≡◌, refl, ◌∙◌, Bool, true, false, String, Option, none, some, Result, ok, err, Error,
  if◌then◌else◌,
}
use hyper_trader.Common.Runs.{
  Run, passed, handled, ◌>>=◌, ◌>>◌, return, query, reading, catching, optional,
}
use hyper_trader.Persistence.Actions.{Repository}
use hyper_trader.Persistence.Progress.{IsLater}
use hyper_trader.Persistence.Later.{IsLater-refl, IsLater-trans}
use hyper_trader.Reconciler.Later.{IsForward}
use hyper_trader.Flow.{ActionFlowAction}
use hyper_trader.Orchestrator.{World, dispatch, on_repository, hold_journal, given}

-- Nothing is submitted, and the database is a later one.
abbrev pub IsKept : World → World → Type 0
IsKept w w' = (w'.sent ≡ w.sent) × IsLater w.repository.database w'.repository.database

unfoldable pub IsQuiet : {A : Type 0} → Run World A → Type 0
IsQuiet call = (w : World) → IsKept w (call w).1

pub IsKept-trans : (w v u : World) → IsKept w v → IsKept v u → IsKept w u
IsKept-trans w v u (e, l) (e', l') =
    (e' ∙ e, IsLater-trans w.repository.database v.repository.database u.repository.database l l')

pub >>=-IsQuiet :
    {A B : Type 0} (first : Run World A) (continue : A → Run World B)
    → IsQuiet first
    → ((a : A) → IsQuiet (continue a))
    → IsQuiet (first >>= continue)
unfolding ◌>>=◌ IsQuiet
>>=-IsQuiet {A} {B} first continue h k w = go (first w) (h w)
  where
    go : (done : Result A × World) → IsKept w done.1 → IsKept w (passed done continue).1
    go (err thrown, v) l = l
    go (ok a, v) l = IsKept-trans w v (continue a v).1 l (k a v)

pub >>-IsQuiet :
    {A B : Type 0} (first : Run World A) (rest : Run World B)
    → IsQuiet first
    → IsQuiet rest
    → IsQuiet (first >> rest)
unfolding ◌>>◌
>>-IsQuiet first rest h k = >>=-IsQuiet first _ h (λ _. k)

pub catching-IsQuiet :
    {A : Type 0} (first : Run World A) (handler : Error → Run World A)
    → IsQuiet first
    → ((e : Error) → IsQuiet (handler e))
    → IsQuiet (catching first handler)
unfolding catching IsQuiet
catching-IsQuiet {A} first handler h k w = go (first w) (h w)
  where
    go : (done : Result A × World) → IsKept w done.1 → IsKept w (handled done handler).1
    go (err thrown, v) l = IsKept-trans w v (handler thrown v).1 l (k thrown v)
    go (ok a, v) l = l

pub reading-IsQuiet :
    {A : Type 0} (body : World → Run World A)
    → ((w : World) → IsQuiet (body w))
    → IsQuiet (reading body)
unfolding reading IsQuiet
reading-IsQuiet body h w = h w w

pub return-IsQuiet : {A : Type 0} (a : A) → IsQuiet (return a)
unfolding IsQuiet
return-IsQuiet a w = (refl, IsLater-refl w.repository.database)

pub query-IsQuiet : {A : Type 0} (read : World → Result A) → IsQuiet (query read)
unfolding IsQuiet
query-IsQuiet read w = (refl, IsLater-refl w.repository.database)

pub given-IsQuiet : {A : Type 0} (result : Result A) → IsQuiet (given result)
unfolding IsQuiet given
given-IsQuiet result w = (refl, IsLater-refl w.repository.database)

pub dispatch-IsQuiet : (action : ActionFlowAction) → IsQuiet (dispatch action)
unfolding IsQuiet dispatch
dispatch-IsQuiet action w = (refl, IsLater-refl w.repository.database)

pub hold_journal-IsQuiet : (id : Option String) → IsQuiet (hold_journal id)
unfolding IsQuiet hold_journal
hold_journal-IsQuiet id w = (refl, IsLater-refl w.repository.database)

pub on_repository-IsQuiet :
    {A : Type 0} (call : Run Repository A) → IsForward call → IsQuiet (on_repository call)
unfolding IsQuiet on_repository IsForward
on_repository-IsQuiet call h w = (refl, h w.repository)

pub optional-IsQuiet : {A : Type 0} (call : Run World A) → IsQuiet call → IsQuiet (optional call)
unfolding optional
optional-IsQuiet call h =
    catching-IsQuiet _ _ (>>=-IsQuiet call _ h (λ a. return-IsQuiet (some a)))
      (λ e. return-IsQuiet none)

pub if-IsQuiet :
    {A : Type 0} (b : Bool) (first second : Run World A)
    → IsQuiet first
    → IsQuiet second
    → IsQuiet (if b then first else second)
if-IsQuiet true first second h k = h
if-IsQuiet false first second h k = k
