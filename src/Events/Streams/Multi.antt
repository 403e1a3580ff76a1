-- ===== src/Events/Streams/Multi.antt =====
-- What `MultiEventStream` delivers (events.go).
use empire.Prelude.{◌≡◌, ◌↔◌, refl, ap, ◌∙◌, Option, none, some, List, [], ◌∷◌, ◌++◌, All}
use empire.Prelude.Text.{Text}
use empire.Events.{Event}
use empire.Events.Streams.{EventStream, stream_errors, publish_multi, multi_error, error_list}

-- The errors of a result, none of them where it is nil
abbrev pub errors : Option (List Text) → List Text
errors none = []
errors (some xs) = xs

abbrev pub all_given : List (Option Text) → List Text
all_given [] = []
all_given (none ∷ xs) = all_given xs
all_given (some x ∷ xs) = x ∷ all_given xs

added :
    (x : Option Text) (xs : List Text) (ys : List (Option Text))
    → xs ≡ all_given ys
    → error_list x ++ xs ≡ all_given (x ∷ ys)
added none xs ys e = e
added (some x) xs ys e = ap (λ t. x ∷ t) e

module _ {S : Type 0} where
  -- The world once the event has gone to each of the streams
  abbrev pub after_all : List (EventStream S) → Event → S → S
  after_all [] event s = s
  after_all (stream ∷ streams) event s = after_all streams event (stream event s).1

  -- What each of the streams answers when its turn comes
  abbrev pub answers : List (EventStream S) → Event → S → List (Option Text)
  answers [] event s = []
  answers (stream ∷ streams) event s = (stream event s).0 ∷ answers streams event (stream event s).1

  stream_errors_lem :
      (streams : List (EventStream S)) (event : Event) (s : S)
      → (stream_errors streams event s).0 ≡ all_given (answers streams event s)
        × ((stream_errors streams event s).1 ≡ after_all streams event s)
  unfolding stream_errors
  stream_errors_lem [] event s = (refl, refl)
  stream_errors_lem (stream ∷ streams) event s =
      let (given, after) = stream_errors_lem streams event (stream event s).1 in
      (added (stream event s).0 _ _ given, after)

errors-multi_error : (xs : List Text) → errors (multi_error xs) ≡ xs
errors-multi_error [] = refl
errors-multi_error (x ∷ xs) = refl

multi_error-none :
    (xs : List (Option Text)) → (multi_error (all_given xs) ≡ none) ↔ All (λ x. x ≡ none) xs
multi_error-none [] = (λ h. tt, λ h. refl)
multi_error-none (none ∷ xs) =
    let (into, back) = multi_error-none xs in (λ h. (refl, into h), λ h. back h.1)
multi_error-none (some x ∷ xs) = (λ h. cc, λ (n, h). cc)

-- The event goes to every stream, also after an error: the world is as all of them leave it, the result has
-- the errors of those that fail, in their order, and is nil exactly if none of them fails.
pub publish_multi_lem :
    {S : Type 0} (streams : List (EventStream S)) (event : Event) (s : S)
    → ((publish_multi streams event s).1 ≡ after_all streams event s)
      × (errors (publish_multi streams event s).0 ≡ all_given (answers streams event s))
      × (((publish_multi streams event s).0 ≡ none) ↔ All (λ x. x ≡ none) (answers streams event s))
unfolding publish_multi
publish_multi_lem streams event s =
    let (given, after) = stream_errors_lem streams event s in
    (
      after,
      errors-multi_error (stream_errors streams event s).0 ∙ given,
      rw given (multi_error-none (answers streams event s)),
    )
