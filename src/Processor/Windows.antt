-- ===== src/Processor/Windows.antt =====
-- processor/advanced_streaming.go: windows over timed records, and the watermark. All times are in
-- one location and carry no monotonic reading, so that times are equal as map keys when they name
-- the same instant. `sort.Slice` is a parameter, since it leaves the order of equal times open.
pub mod Sessions
pub mod Buckets
pub mod Sliding
pub mod Within
use stream_flow.Prelude.{
  ℕ, zero, suc, ◌+◌, ◌-◌, ◌^◌, ◌%◌, ◌≡◌, ◌↔◌, Bool, true, false, not, ◌&&◌, Option, none, some,
  List, [], ◌∷◌, ◌++◌, ◌==◌, Key, arith, if◌then◌else◌,
}
use stream_flow.Prelude.Int.{ℤ, pos, negsuc, pos_part, neg_part, ◌+ℤ◌, ◌-ℤ◌, ltb_ℤ}
use stream_flow.Dict.{Dict, lookup, insert}
use stream_flow.Time.{Time, Duration, is_after, is_before}
use stream_flow.Processor.Values.{Floats, Record}

abbrev same_time : Time → Time → Bool
same_time t u = pos_part t + neg_part u == pos_part u + neg_part t

pub same_time_iff : (t u : Time) → (same_time t u ≡ true) ↔ (t ≡ u)
same_time_iff t u = ground arith

instance abbrev pub time_key : Key Time
time_key = record { same = same_time; same_iff = same_time_iff }

-- `t.Truncate(d)`: down to a multiple of `d` since the zero time.
abbrev pub truncate : Time → Duration → Time
truncate t (pos zero) = t
truncate t (negsuc d) = t
truncate (pos n) (pos (suc d)) = pos (n - n % suc d)
truncate (negsuc n) (pos (suc d)) = negsuc (n + (d - n % suc d))

abbrev pub max_duration : Duration
max_duration = pos (2 ^ 63 - 1)

abbrev pub min_duration : Duration
min_duration = negsuc (2 ^ 63 - 1)

-- `t.Sub(u)`, which saturates.
abbrev pub sub : Time → Time → Duration
sub t u =
    let d = t -ℤ u in
    if ltb_ℤ max_duration d then max_duration else if ltb_ℤ d min_duration then min_duration else d

module _ (w : Floats) where
  pub record TimedRecord : Type 0 where
    pub at_time : Time
    pub payload : Record w

  abbrev pub Buckets : Type 0
  Buckets = Dict Time (List (Record w))

  abbrev pub or_empty : Option (List (Record w)) → List (Record w)
  or_empty none = []
  or_empty (some rs) = rs

  -- `out[k] = append(out[k], r)`
  abbrev pub append_to : Time → Record w → Buckets → Buckets
  append_to k r out = insert k (or_empty (lookup k out) ++ (r ∷ [])) out

  unfoldable pub tumbling_loop : Duration → List TimedRecord → Buckets → Buckets
  tumbling_loop size [] out = out
  tumbling_loop size (t ∷ ts) out =
      tumbling_loop size ts (append_to (truncate t.at_time size) t.payload out)

  unfoldable pub tumbling_windows : List TimedRecord → Duration → Buckets
  unfolding tumbling_loop
  tumbling_windows ts size = tumbling_loop size ts []

  -- `at.Sub(last) > gap`
  abbrev pub is_gap : Duration → Time → Time → Bool
  is_gap gap last at = ltb_ℤ gap (sub at last)

  -- The loop with the session `current`: the sessions that it appends to `out`, and the last one.
  unfoldable pub session_loop :
      Duration → List (Record w) → Time → List TimedRecord → List (List (Record w))
  session_loop gap current last [] = current ∷ []
  session_loop gap current last (t ∷ ts) =
      let fresh = t.payload ∷ [] in
      let ended = is_gap gap last t.at_time in
      let rest = session_loop gap (if ended then fresh else current ++ fresh) t.at_time ts in
      if ended then current ∷ rest else rest

  -- A sorted slice is as long as before, so the empty one is not reached.
  abbrev pub sessions_of : Duration → List TimedRecord → List (List (Record w))
  sessions_of gap [] = []
  sessions_of gap (t ∷ ts) = session_loop gap (t.payload ∷ []) t.at_time ts

  abbrev pub session_windows :
      (List TimedRecord → List TimedRecord) → List TimedRecord → Duration → List (List (Record w))
  session_windows sort_slice [] gap = []
  session_windows sort_slice (t ∷ ts) gap = sessions_of gap (sort_slice (t ∷ ts))

-- The rounds of the sliding windows, `none` when the fuel runs out.
module _ (w : Floats) where
  abbrev pub last_of : TimedRecord w → List (TimedRecord w) → TimedRecord w
  last_of t [] = t
  last_of t (u ∷ us) = last_of u us

  abbrev pub is_inside : Time → Duration → Time → Bool
  is_inside start size at = not (is_before at start) && is_before at (start +ℤ size)

  unfoldable pub fill_window : Time → Duration → List (TimedRecord w) → Buckets w → Buckets w
  fill_window start size [] out = out
  fill_window start size (t ∷ ts) out =
      fill_window start size ts
        (if is_inside start size t.at_time then append_to w start t.payload out else out)

  unfoldable pub sliding_loop :
      ℕ → Duration → Duration → Time → Time → List (TimedRecord w) → Buckets w → Option (Buckets w)
  unfolding fill_window
  sliding_loop zero size slide end start ts out = none
  sliding_loop (suc fuel) size slide end start ts out =
      let rest =
        sliding_loop fuel size slide end (start +ℤ slide) ts (fill_window start size ts out) in
      if is_after start end then some out else rest

  abbrev pub sliding_of : ℕ → List (TimedRecord w) → Duration → Duration → Option (Buckets w)
  sliding_of fuel [] size slide = some []
  sliding_of fuel (t ∷ ts) size slide =
      sliding_loop fuel size slide (last_of t ts).at_time (truncate t.at_time slide) (t ∷ ts) []

  abbrev pub sliding_windows :
      (List (TimedRecord w) → List (TimedRecord w))
      → ℕ
      → List (TimedRecord w)
      → Duration
      → Duration
      → Option (Buckets w)
  sliding_windows sort_slice fuel [] size slide = some []
  sliding_windows sort_slice fuel (t ∷ ts) size slide =
      sliding_of fuel (sort_slice (t ∷ ts)) size slide

pub record WatermarkGenerator : Type 0 where
  pub allowed_lateness : Duration
  pub max_event : Time

-- The new state and the watermark.
abbrev pub observe : WatermarkGenerator → Time → WatermarkGenerator × Time
observe g ts =
    let latest = if is_after ts g.max_event then ts else g.max_event in
    (record g { max_event = latest }, latest -ℤ g.allowed_lateness)
