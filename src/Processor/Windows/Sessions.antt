-- ===== src/Processor/Windows/Sessions.antt =====
-- The session windows of timed records.
use stream_flow.Prelude.{
  if◌then◌else◌, arith, ◌≡◌, inl, inr, refl, sym, ap, ◌∙◌, Bool, true, false, List, [], ◌∷◌, ◌++◌,
  map, concat, Bool-cases,
}
use mathlib.Core.List.{Permᴰ, append_assoc, append-nil}
use stream_flow.Sort.{IsSorted}
use stream_flow.Prelude.Int.{ltb_ℤ, ◌≤ℤ◌, ◌+ℤ◌, ◌-ℤ◌, +ℤ_parts, -ℤ_parts}
use stream_flow.Time.{Time, Duration, is_before}
use stream_flow.Processor.Values.{Floats, Record}
use stream_flow.Processor.Windows.{
  max_duration, min_duration, TimedRecord, last_of, is_gap, session_loop, sessions_of,
  session_windows,
}

-- The second time is more than the gap after the first.
abbrev pub is_more : Duration → Time → Time → Bool
is_more gap t u = ltb_ℤ (t +ℤ gap) u

-- A difference that saturates is compared the same with a gap that is not the greatest.
within :
    (gap d : Duration)
    → min_duration ≤ℤ gap
    → ltb_ℤ gap max_duration ≡ true
    → ltb_ℤ gap (
        if ltb_ℤ max_duration d
        then max_duration
        else if ltb_ℤ d min_duration
        then min_duration
        else d)
      ≡ ltb_ℤ gap d
within gap d low high = elim (Bool-cases (ltb_ℤ max_duration d)) [
  | inl above ↦ rw above (high ∙ ground (arith, above, high))
  | inr inside ↦ elim (Bool-cases (ltb_ℤ d min_duration)) [
    | inl below ↦ rw (inside, below) (ground (arith, below, low))
    | inr inside' ↦ rw (inside, inside') refl
  ]
]

module _ (w : Floats) where
  abbrev pub payloads : List (TimedRecord w) → List (Record w)
  payloads = map (λ t. t.payload)

  -- No gap between a record and the next, where `far` tells the gaps.
  abbrev pub IsSession : (Time → Time → Bool) → TimedRecord w → List (TimedRecord w) → Type 0
  IsSession far t [] = Unit {0}
  IsSession far t (u ∷ us) = (far t.at_time u.at_time ≡ false) × IsSession far u us

  -- A session is its first record and the others.
  abbrev pub Session : Type 0
  Session = TimedRecord w × List (TimedRecord w)

  abbrev pub members : Session → List (TimedRecord w)
  members s = s.0 ∷ s.1

  abbrev pub EndsBefore : (Time → Time → Bool) → TimedRecord w → List Session → Type 0
  EndsBefore far l [] = Unit {0}
  EndsBefore far l (s ∷ ss) = far l.at_time s.0.at_time ≡ true

  -- Sessions, and a gap between the end of one and the start of the next.
  abbrev pub AreSessions : (Time → Time → Bool) → List Session → Type 0
  AreSessions far [] = Unit {0}
  AreSessions far (s ∷ ss) =
      IsSession far s.0 s.1 × EndsBefore far (last_of w s.0 s.1) ss × AreSessions far ss

  abbrev split_step :
      Bool
      → TimedRecord w
      → List (TimedRecord w) × List Session
      → List (TimedRecord w) × List Session
  split_step true u s = ([], (u, s.0) ∷ s.1)
  split_step false u s = (u ∷ s.0, s.1)

  -- What goes with `t`, and the sessions after it.
  abbrev split :
      Duration → TimedRecord w → List (TimedRecord w) → List (TimedRecord w) × List Session
  split gap t [] = ([], [])
  split gap t (u ∷ us) = split_step (is_gap w gap t.at_time u.at_time) u (split gap u us)

  abbrev all_sessions : Duration → List (TimedRecord w) → List Session
  all_sessions gap [] = []
  all_sessions gap (t ∷ ts) = (t, (split gap t ts).0) ∷ (split gap t ts).1

  split_step-concat :
      (b : Bool) (u : TimedRecord w) (s : List (TimedRecord w) × List Session)
      → (split_step b u s).0 ++ concat (map members (split_step b u s).1)
        ≡ u ∷ (s.0 ++ concat (map members s.1))
  split_step-concat true u s = refl
  split_step-concat false u s = refl

  split-concat :
      (gap : Duration) (t : TimedRecord w) (ts : List (TimedRecord w))
      → (split gap t ts).0 ++ concat (map members (split gap t ts).1) ≡ ts
  split-concat gap t [] = refl
  split-concat gap t (u ∷ us) =
      split_step-concat (is_gap w gap t.at_time u.at_time) u (split gap u us)
      ∙ ap (λ l. u ∷ l) (split-concat gap u us)

  all_sessions-concat :
      (gap : Duration) (ts : List (TimedRecord w)) → concat (map members (all_sessions gap ts)) ≡ ts
  all_sessions-concat gap [] = refl
  all_sessions-concat gap (t ∷ ts) = ap (λ l. t ∷ l) (split-concat gap t ts)

  split_step-AreSessions :
      (gap : Duration) (t u : TimedRecord w) (s : List (TimedRecord w) × List Session) (b : Bool)
      → is_gap w gap t.at_time u.at_time ≡ b
      → AreSessions (is_gap w gap) ((u, s.0) ∷ s.1)
      → AreSessions (is_gap w gap) ((t, (split_step b u s).0) ∷ (split_step b u s).1)
  split_step-AreSessions gap t u s true e h = (tt, e, h)
  split_step-AreSessions gap t u s false e h = ((e, h.0), h.1, h.2)

  split-AreSessions :
      (gap : Duration) (t : TimedRecord w) (ts : List (TimedRecord w))
      → AreSessions (is_gap w gap) ((t, (split gap t ts).0) ∷ (split gap t ts).1)
  split-AreSessions gap t [] = (tt, tt, tt)
  split-AreSessions gap t (u ∷ us) =
      split_step-AreSessions gap t u (split gap u us) (is_gap w gap t.at_time u.at_time) refl
        (split-AreSessions gap u us)

  all_sessions-AreSessions :
      (gap : Duration) (ts : List (TimedRecord w))
      → AreSessions (is_gap w gap) (all_sessions gap ts)
  all_sessions-AreSessions gap [] = tt
  all_sessions-AreSessions gap (t ∷ ts) = split-AreSessions gap t ts

  session_loop-split :
      (gap : Duration) (current : List (Record w)) (t : TimedRecord w) (ts : List (TimedRecord w))
      → session_loop w gap current t.at_time ts
        ≡ (current ++ payloads (split gap t ts).0)
          ∷ map (λ s. payloads (members s)) (split gap t ts).1
  unfolding session_loop
  session_loop-split gap current t [] = ap (λ l. l ∷ []) (sym (append-nil current))
  session_loop-split gap current t (u ∷ us) =
      let others : List (List (Record w)) = map (λ s. payloads (members s)) (split gap u us).1 in
      let after : List (List (Record w)) = (u.payload ∷ payloads (split gap u us).0) ∷ others in
      elim (Bool-cases (is_gap w gap t.at_time u.at_time)) [
        | inl e ↦ rw e (
            ap (λ l. current ∷ l) (session_loop-split gap (u.payload ∷ []) u us)
            ∙ ap (λ l. l ∷ after) (sym (append-nil current)))
        | inr e ↦ rw e (
            session_loop-split gap (current ++ (u.payload ∷ [])) u us
            ∙ ap (λ l. l ∷ others)
                (append_assoc current (u.payload ∷ []) (payloads (split gap u us).0)))
      ]

  sessions_of-all_sessions :
      (gap : Duration) (ts : List (TimedRecord w))
      → sessions_of w gap ts ≡ map (λ s. payloads (members s)) (all_sessions gap ts)
  sessions_of-all_sessions gap [] = refl
  sessions_of-all_sessions gap (t ∷ ts) = session_loop-split gap (t.payload ∷ []) t ts

  abbrev pub is_earlier : TimedRecord w → TimedRecord w → Bool
  is_earlier t u = is_before t.at_time u.at_time

  -- What `sort.Slice` promises.
  abbrev pub IsSortSlice : (List (TimedRecord w) → List (TimedRecord w)) → Type 0
  IsSortSlice f = (ts : List (TimedRecord w)) → Permᴰ (f ts) ts × IsSorted is_earlier (f ts)

  is_gap-is_more :
      (gap : Duration) (t u : Time)
      → min_duration ≤ℤ gap
      → ltb_ℤ gap max_duration ≡ true
      → is_gap w gap t u ≡ is_more gap t u
  is_gap-is_more gap t u low high =
      within gap (u -ℤ t) low high ∙ ground (arith, -ℤ_parts u t, +ℤ_parts t gap)

  IsSession-more :
      (gap : Duration) (low : min_duration ≤ℤ gap) (high : ltb_ℤ gap max_duration ≡ true)
      (t : TimedRecord w) (us : List (TimedRecord w))
      → IsSession (is_gap w gap) t us
      → IsSession (is_more gap) t us
  IsSession-more gap low high t [] h = tt
  IsSession-more gap low high t (u ∷ us) h = (
    sym (is_gap-is_more gap t.at_time u.at_time low high) ∙ h.0,
    IsSession-more gap low high u us h.1,
  )

  ends-more :
      (gap : Duration) (low : min_duration ≤ℤ gap) (high : ltb_ℤ gap max_duration ≡ true)
      (l : TimedRecord w) (ss : List Session)
      → EndsBefore (is_gap w gap) l ss
      → EndsBefore (is_more gap) l ss
  ends-more gap low high l [] h = tt
  ends-more gap low high l (s ∷ ss) h = sym (is_gap-is_more gap l.at_time s.0.at_time low high) ∙ h

  more-AreSessions :
      (gap : Duration) (low : min_duration ≤ℤ gap) (high : ltb_ℤ gap max_duration ≡ true)
      (ss : List Session)
      → AreSessions (is_gap w gap) ss
      → AreSessions (is_more gap) ss
  more-AreSessions gap low high [] h = tt
  more-AreSessions gap low high (s ∷ ss) h = (
    IsSession-more gap low high s.0 s.1 h.0,
    ends-more gap low high (last_of w s.0 s.1) ss h.1,
    more-AreSessions gap low high ss h.2,
  )

  -- With a sort that permutes the records into the order of their times, and a gap that is a
  -- duration below the greatest one, the session windows are the records cut into sessions: inside
  -- one no record is more than the gap after the one before it, the first of the next session is
  -- more than the gap after the last, and the sessions in order hold all records, in the order of
  -- their times.
  pub session_windows-AreSessions :
      (sort_slice : List (TimedRecord w) → List (TimedRecord w)) (ts : List (TimedRecord w))
      (gap : Duration)
      → min_duration ≤ℤ gap
      → ltb_ℤ gap max_duration ≡ true
      → IsSortSlice sort_slice
      → (ss : List Session) × (session_windows w sort_slice ts gap
          ≡ map (λ s. payloads (members s)) ss)
        × AreSessions (is_more gap) ss
        × Permᴰ (concat (map members ss)) ts
        × IsSorted is_earlier (concat (map members ss))
  session_windows-AreSessions sort_slice [] gap low high h = ([], refl, tt, Permᴰ.nil, tt)
  session_windows-AreSessions sort_slice (t ∷ ts) gap low high h =
      let sorted = sort_slice (t ∷ ts) in
      (
        all_sessions gap sorted,
        sessions_of-all_sessions gap sorted,
        more-AreSessions gap low high (all_sessions gap sorted)
            (all_sessions-AreSessions gap sorted),
        rw (all_sessions-concat gap sorted) (h (t ∷ ts)).0,
        rw (all_sessions-concat gap sorted) (h (t ∷ ts)).1,
      )
