-- ===== src/Events/Streams.antt =====
-- Event streams (events.go): `MultiEventStream`, and `AsyncEvents` as the steps of the publishers and of
-- the goroutine that reads the channel.
pub mod Delivery
pub mod Multi
mod Tests
use empire.Prelude.{ℕ, ◌<◌, ◌≡◌, Option, none, some, List, [], ◌∷◌, ◌++◌, Result, ok, err, length}
use empire.Prelude.Text.{Text, codes}
use empire.Events.{Event}

-- `PublishEvent` of a stream, which changes the outside world: the error, or none for nil.
abbrev pub EventStream : Type 0 → Type 0
EventStream S = Event → S → Option Text × S

abbrev error_list : Option Text → List Text
error_list none = []
error_list (some x) = x ∷ []

-- The `multiError`, if there is an error.
abbrev multi_error : List Text → Option (List Text)
multi_error [] = none
multi_error (x ∷ xs) = some (x ∷ xs)

module _ {S : Type 0} where
  -- The loop of `MultiEventStream.PublishEvent`: the errors, in the order of the streams.
  unfoldable pub stream_errors : List (EventStream S) → Event → S → List Text × S
  stream_errors [] event s = ([], s)
  stream_errors (stream ∷ streams) event s =
      let (x, t) = stream event s in
      let (xs, u) = stream_errors streams event t in (error_list x ++ xs, u)

  -- `MultiEventStream.PublishEvent`
  unfoldable pub publish_multi : List (EventStream S) → Event → S → Option (List Text) × S
  unfolding stream_errors
  publish_multi streams event s = let (xs, u) = stream_errors streams event s in (multi_error xs, u)

-- How the call of the inner stream ends: it returns, or panics with an error or with another value.
pub data Outcome : Type 0 where
  returned : Option Text → Outcome
  panicked_error : Text → Outcome
  panicked_value : Text → Outcome

-- `asyncEventStream.publishEvent`
unfoldable pub publish_recovered : Outcome → Option Text
publish_recovered (returned x) = x
publish_recovered (panicked_error x) = some x
publish_recovered (panicked_value v) = some (codes "panic: " ++ v)

-- What the goroutine prints of a call.
unfoldable pub log_lines : Outcome → List Text
unfolding publish_recovered
log_lines o = error_list (publish_recovered o)

-- `make(chan Event, 100)`
abbrev pub channel_capacity : ℕ
channel_capacity = 100

-- The channel, the event that the goroutine works on, what it has printed, and the events that were
-- sent and those that were handed to the inner stream, in their order.
pub record AsyncStream : Type 0 where
  pub events : List Event
  pub current : Option Event
  pub printed : List Text
  pub sent : List Event
  pub handed : List Event

-- `AsyncEvents`
abbrev pub async_events : AsyncStream
async_events = record { events = []; current = none; printed = []; sent = []; handed = [] }

module _ (inner : Event → Outcome) where
  -- A publisher sends while there is room; the goroutine receives, and hands the event on.
  pub data Step : AsyncStream → AsyncStream → Type 0 where
    send :
        (s : AsyncStream) (event : Event)
        → length s.events < channel_capacity
        → Step s (record s { events = s.events ++ event ∷ []; sent = s.sent ++ event ∷ [] })
    receive :
        (s : AsyncStream) (event : Event) (rest : List Event)
        → s.current ≡ none
        → s.events ≡ event ∷ rest
        → Step s (record s { events = rest; current = some event })
    hand :
        (s : AsyncStream) (event : Event)
        → s.current ≡ some event
        → Step s (record s {
          current = none;
          printed = s.printed ++ log_lines (inner event);
          handed = s.handed ++ event ∷ [];
        })

  pub data Steps : AsyncStream → AsyncStream → Type 0 where
    done : (s : AsyncStream) → Steps s s
    then : {s t u : AsyncStream} → Step s t → Steps t u → Steps s u
