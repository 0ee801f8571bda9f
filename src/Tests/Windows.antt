-- ===== src/Tests/Windows.antt =====
-- Windows over timed records at concrete streams; the floats are numbers.
use stream_flow.Prelude.{
  ℕ, ◌≡◌, refl, none, some, true, List, [], ◌∷◌, ascii, bytes_key, arith, concat, map,
}
use stream_flow.Prelude.Int.{pos, ltb_ℤ, ◌≤ℤ◌, ◌+ℤ◌, ◌-ℤ◌}
use mathlib.Core.List.{Permᴰ}
use stream_flow.Dict.{lookup, insert}
use stream_flow.Sort.{sort, place, IsSorted}
use stream_flow.Sort.Slices.{WeakOrder, sort-IsSorted_weak, sort-Permᴰ_self}
use stream_flow.Processor.Values.{int}
use stream_flow.Processor.Windows.{
  TimedRecord, Buckets, or_empty, tumbling_windows, session_loop, session_windows, fill_window,
  sliding_loop, sliding_windows, observe, time_key,
}
use stream_flow.Processor.Windows.Sessions.{
  is_more, Session, members, payloads, AreSessions, is_earlier, session_windows-AreSessions,
}
use stream_flow.Processor.Windows.Buckets.{in_bucket, lookup-tumbling_windows}
use stream_flow.Processor.Windows.Sliding.{sliding_windows-terminates}
use stream_flow.Tests.Operators.{numbers}

abbrev event : ℕ → ℕ → TimedRecord numbers
event t x = record { at_time = pos t; payload = (ascii "x", int x) ∷ [] }

abbrev events : List (TimedRecord numbers)
events = event 17 3 ∷ event 1 1 ∷ event 9 2 ∷ []

is_earlier-WeakOrder : WeakOrder (is_earlier numbers)
is_earlier-WeakOrder = record {
  asymmetric = λ a b h. ground arith;
  not_less = λ a b c h k. ground arith;
}

session_windows-AreSessions_example :
    (ss : List (Session numbers)) × (session_windows numbers
        (sort (is_earlier numbers))
        events
        (pos 8)
      ≡ map (λ s. payloads numbers (members numbers s)) ss)
    × AreSessions numbers (is_more (pos 8)) ss
    × Permᴰ (concat (map (members numbers) ss)) events
    × IsSorted (is_earlier numbers) (concat (map (members numbers) ss))
session_windows-AreSessions_example =
    session_windows-AreSessions numbers (sort (is_earlier numbers)) events (pos 8) (omega arith)
      refl
      (λ ts. (sort-Permᴰ_self (is_earlier numbers) ts, sort-IsSorted_weak is_earlier-WeakOrder ts))

sessions_by_gap :
    session_windows numbers (sort (is_earlier numbers)) events (pos 7)
    ≡ ((event 1 1).payload ∷ []) ∷ ((event 9 2).payload ∷ []) ∷ ((event 17 3).payload ∷ []) ∷ []
unfolding sort place session_loop ◌-ℤ◌
sessions_by_gap = refl

lookup-tumbling_windows_example :
    (or_empty numbers (lookup (pos 0) (tumbling_windows numbers events (pos 10)))
      ≡ in_bucket numbers (pos 10) (pos 0) events)
    × (pos 0 ≤ℤ (event 9 2).at_time)
    × (ltb_ℤ (event 9 2).at_time (pos 0 +ℤ pos 10) ≡ true)
lookup-tumbling_windows_example =
    lookup-tumbling_windows numbers events (pos 10) (pos 0) (event 9 2) refl refl

first_bucket :
    in_bucket numbers (pos 10) (pos 0) events ≡ (event 1 1).payload ∷ (event 9 2).payload ∷ []
first_bucket = refl

-- An event that is late does not move the watermark back.
late_event : (observe (record { allowed_lateness = pos 5; max_event = pos 20 }) (pos 12)).1 ≡ pos 15
unfolding ◌-ℤ◌
late_event = refl

sliding_windows-terminates_example :
    ((fuel : ℕ) × (out : Buckets numbers) × (sliding_windows numbers
          (sort (is_earlier numbers))
          fuel
          events
          (pos 10)
          (pos 8)
        ≡ some out))
    × ((fuel : ℕ)
        → sliding_windows numbers (sort (is_earlier numbers)) fuel events (pos 10) (pos 0) ≡ none)
sliding_windows-terminates_example =
    sliding_windows-terminates numbers (sort (is_earlier numbers)) (event 17 3)
      (event 1 1 ∷ event 9 2 ∷ []) (pos 10) (pos 8)
      (λ ts. (sort-Permᴰ_self (is_earlier numbers) ts, sort-IsSorted_weak is_earlier-WeakOrder ts))
      refl

-- Windows of length 10 that start every 8.
two_windows :
    sliding_windows numbers (sort (is_earlier numbers)) 4 events (pos 10) (pos 8)
    ≡ some (
        (pos 0, (event 1 1).payload ∷ (event 9 2).payload ∷ [])
        ∷ (pos 8, (event 9 2).payload ∷ (event 17 3).payload ∷ [])
        ∷ (pos 16, (event 17 3).payload ∷ [])
        ∷ [])
unfolding sort place sliding_loop fill_window lookup insert ◌+ℤ◌
two_windows = refl
