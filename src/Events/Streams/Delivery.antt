-- ===== src/Events/Streams/Delivery.antt =====
-- What the streams of events deliver.
use empire.Prelude.{
  ◌≤◌, ◌≡◌, refl, Option, none, some, Option-cases, inl, inr, List, [], ◌∷◌, ◌++◌, length,
}
use empire.Prelude.Text.{Text}
use empire.Events.{Event}
use empire.Events.Streams.{
  Outcome, log_lines, channel_capacity, AsyncStream, receive, hand, Steps, done, then,
}

abbrev pub in_hand : Option Event → List Event
in_hand none = []
in_hand (some event) = event ∷ []

module _ (inner : Event → Outcome) where
  abbrev pub lines_of : List Event → List Text
  lines_of [] = []
  lines_of (event ∷ es) = log_lines (inner event) ++ lines_of es

  -- Every event that was sent was handed on, is in hand or waits, in the order in which they were sent;
  -- what was printed are the errors of those handed on; and the channel is not over its capacity.
  pub record Delivering (s : AsyncStream) : Type 0 where
    pub in_order : s.sent ≡ s.handed ++ (in_hand s.current ++ s.events)
    pub errors : s.printed ≡ lines_of s.handed
    pub bounded : length s.events ≤ channel_capacity

  -- The goroutine has nothing left to do, and nothing was sent since `s`.
  abbrev Idle : AsyncStream → AsyncStream → Type 0
  Idle s t = (t.events ≡ []) × (t.current ≡ none) × (t.sent ≡ s.sent)

  drain :
      (es : List Event) (s : AsyncStream)
      → s.current ≡ none
      → s.events ≡ es
      → (t : AsyncStream) × Steps inner s t × Idle s t
  drain [] s c q = (s, done s, (q, c, refl))
  drain (event ∷ es) s c q =
      let taken = record s { events = es; current = some event } in
      let handed_on = record taken {
        current = none;
        printed = s.printed ++ log_lines (inner event);
        handed = s.handed ++ event ∷ [];
      } in
      let (t, steps, idle) = drain es handed_on refl refl in
      (t, then (receive s event es c q) (then (hand taken event refl) steps), idle)

  settle : (s : AsyncStream) → (t : AsyncStream) × Steps inner s t × Idle s t
  settle s = elim (Option-cases (s.current)) [
    | inl n ↦ drain s.events s n refl
    | inr (event, m) ↦
        let handed_on = record s {
          current = none;
          printed = s.printed ++ log_lines (inner event);
          handed = s.handed ++ event ∷ [];
        } in
        let (t, steps, idle) = drain s.events handed_on refl refl in
        (t, then (hand s event m) steps, idle)
  ]
