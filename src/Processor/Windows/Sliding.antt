-- ===== src/Processor/Windows/Sliding.antt =====
-- When the loop of the sliding windows ends.
use stream_flow.Prelude.{
  ℕ, zero, suc, ◌+◌, ◌≤◌, ◌≡◌, refl, sym, true, false, some, none, List, [], ◌∷◌, arith, Bool-cases,
  inl, inr,
}
use mathlib.Core.List.{Permᴰ, cons≢nil}
use mathlib.Core.List.Perm
use stream_flow.Prelude.Int.{pos, pos_part, neg_part, ◌+ℤ◌, ltb_ℤ, +ℤ_parts, eq_of_parts, int_laws}
use stream_flow.Sort.{IsSorted, AllNotLess}
use stream_flow.Time.{Time, Duration, is_after}
use stream_flow.Processor.Values.{Floats}
use stream_flow.Processor.Windows.{
  TimedRecord, Buckets, truncate, last_of, fill_window, sliding_loop, sliding_of, sliding_windows,
}
use stream_flow.Processor.Windows.Sessions.{IsSortSlice, is_earlier}

+ℤ_zero : (t : Time) → t +ℤ pos 0 ≡ t
+ℤ_zero t = eq_of_parts (t +ℤ pos 0) t (omega int_laws)

later_rounds :
    (fuel : ℕ) (slide : Duration) (end start : Time)
    → ltb_ℤ (pos 0) slide ≡ true
    → pos_part end + neg_part start + 1 ≤ suc fuel + pos_part start + neg_part end
    → pos_part end + neg_part (start +ℤ slide) + 1 ≤ fuel + pos_part (start +ℤ slide) + neg_part end
later_rounds fuel slide end start h e = ground (arith, +ℤ_parts start slide, h, e)

module _ (w : Floats) where
  sliding_loop-total :
      (fuel : ℕ) (size slide : Duration) (end start : Time) (ts : List (TimedRecord w))
      (out : Buckets w)
      → ltb_ℤ (pos 0) slide ≡ true
      → pos_part end + neg_part start + 1 ≤ fuel + pos_part start + neg_part end
      → (out' : Buckets w) × (sliding_loop w (suc fuel) size slide end start ts out ≡ some out')
  unfolding sliding_loop
  sliding_loop-total zero size slide end start ts out h e = (out, ground (arith, e))
  sliding_loop-total (suc fuel) size slide end start ts out h e =
      elim (Bool-cases (is_after start end)) [
        | inl over ↦ (out, rw over refl)
        | inr going ↦ rw going (
            sliding_loop-total fuel size slide end (start +ℤ slide) ts
              (fill_window w start size ts out) h (later_rounds fuel slide end start h e))
      ]

  sliding_loop-endless :
      (fuel : ℕ) (size : Duration) (end start : Time) (ts : List (TimedRecord w)) (out : Buckets w)
      → is_after start end ≡ false
      → sliding_loop w fuel size (pos 0) end start ts out ≡ none
  unfolding sliding_loop
  sliding_loop-endless zero size end start ts out h = refl
  sliding_loop-endless (suc fuel) size end start ts out h =
      rw (h, +ℤ_zero start)
        (sliding_loop-endless fuel size end start ts (fill_window w start size ts out) h)

  last_of-latest :
      (x y : TimedRecord w) (ys : List (TimedRecord w))
      → AllNotLess (is_earlier w) x (y ∷ ys)
      → is_after x.at_time (last_of w y ys).at_time ≡ false
  last_of-latest x y [] h = h.0
  last_of-latest x y (z ∷ zs) h = last_of-latest x z zs h.1

  sliding_of-ends :
      (ts : List (TimedRecord w)) (size slide : Duration)
      → ltb_ℤ (pos 0) slide ≡ true
      → (fuel : ℕ) × (out : Buckets w) × (sliding_of w fuel ts size slide ≡ some out)
  sliding_of-ends [] size slide h = (0, [], refl)
  sliding_of-ends (t ∷ ts) size slide h =
      let end = (last_of w t ts).at_time in
      let start = truncate t.at_time slide in
      let fuel = pos_part end + neg_part start + 1 in
      let (out, done) = sliding_loop-total fuel size slide end start (t ∷ ts) [] h (omega arith) in
      (suc fuel, out, done)

  sliding_of-endless :
      (fuel : ℕ) (t : TimedRecord w) (ts : List (TimedRecord w)) (size : Duration)
      → IsSorted (is_earlier w) (t ∷ ts)
      → sliding_of w fuel (t ∷ ts) size (pos 0) ≡ none
  sliding_of-endless fuel t [] size s =
      sliding_loop-endless fuel size t.at_time t.at_time (t ∷ []) [] (ground arith)
  sliding_of-endless fuel t (u ∷ us) size s =
      sliding_loop-endless fuel size (last_of w u us).at_time t.at_time (t ∷ u ∷ us) []
        (last_of-latest t u us s.0)

  sliding_of-endless_sorted :
      (fuel : ℕ) {t : TimedRecord w} {ts : List (TimedRecord w)} (sorted : List (TimedRecord w))
      (size : Duration)
      → Permᴰ sorted (t ∷ ts) × IsSorted (is_earlier w) sorted
      → sliding_of w fuel sorted size (pos 0) ≡ none
  sliding_of-endless_sorted fuel [] size h = absurd (cons≢nil (sym (Perm.nil-eq ∣ h.0 ∣₁)))
  sliding_of-endless_sorted fuel (u ∷ us) size h = sliding_of-endless fuel u us size h.1

  -- With a sort that permutes the records into the order of their times, computing the sliding
  -- windows of at least one record ends with a result for a positive slide, whatever the size of
  -- the windows, and with a slide of zero does not end, whatever the number of rounds.
  pub sliding_windows-terminates :
      (sort_slice : List (TimedRecord w) → List (TimedRecord w)) (t : TimedRecord w)
      (ts : List (TimedRecord w)) (size slide : Duration)
      → IsSortSlice w sort_slice
      → ltb_ℤ (pos 0) slide ≡ true
      → ((fuel : ℕ) × (out : Buckets w) × (sliding_windows w sort_slice fuel (t ∷ ts) size slide
            ≡ some out))
        × ((fuel : ℕ) → sliding_windows w sort_slice fuel (t ∷ ts) size (pos 0) ≡ none)
  sliding_windows-terminates sort_slice t ts size slide h k = (
    sliding_of-ends (sort_slice (t ∷ ts)) size slide k,
    λ fuel. sliding_of-endless_sorted fuel (sort_slice (t ∷ ts)) size (h (t ∷ ts)),
  )
