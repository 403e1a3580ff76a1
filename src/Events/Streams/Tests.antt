-- ===== src/Events/Streams/Tests.antt =====
-- Two events through the channel, of which the inner stream panics on each.
use empire.Prelude.{ℕ, ◌+◌, All, ◌≡◌, ◌↔◌, none, some, [], ◌∷◌}
use empire.Prelude.Text.{codes}
use empire.Events.{Event, create}
use empire.Events.Streams.{
  EventStream, publish_multi, Outcome, panicked_value, AsyncStream, async_events,
}
use empire.Events.Streams.Multi.{errors, answers, publish_multi_lem}

abbrev created : Event
created = create (record { user = codes "ann"; name = codes "acme"; message = [] })

abbrev other : Event
other = create (record { user = codes "ann"; name = codes "other"; message = [] })

abbrev broken : Event → Outcome
broken event = panicked_value (codes "nil")

abbrev sent_one : AsyncStream
sent_one = record async_events { events = created ∷ []; sent = created ∷ [] }

abbrev received : AsyncStream
received = record sent_one { events = []; current = some created }

abbrev sent_two : AsyncStream
sent_two = record received { events = other ∷ []; sent = created ∷ other ∷ [] }

-- Streams that count what they are sent, of which one fails.
abbrev fails : EventStream ℕ
fails event n = (some (codes "down"), n + 1)

abbrev works : EventStream ℕ
works event n = (none, n + 1)

publish_multi_lem_example :
    ((publish_multi (fails ∷ works ∷ []) created 0).1 ≡ 2)
    × (errors (publish_multi (fails ∷ works ∷ []) created 0).0 ≡ codes "down" ∷ [])
    × (((publish_multi (fails ∷ works ∷ []) created 0).0 ≡ none)
        ↔ All (λ x. x ≡ none) (answers (fails ∷ works ∷ []) created 0))
publish_multi_lem_example = publish_multi_lem (fails ∷ works ∷ []) created 0
