-- ===== src/Processor/Windows/Buckets.antt =====
-- The tumbling windows of timed records.
use stream_flow.Prelude.{
  zero, suc, Bool-cases, ◌≡◌, inl, inr, refl, ap, ◌∙◌, sym, Bool, true, List, [], ◌∷◌, ◌++◌, map,
  filter, arith, if◌then◌else◌,
}
use stream_flow.Prelude.Int.{pos, negsuc, ◌+ℤ◌, ◌≤ℤ◌, ltb_ℤ}
use native.Mathlib.Omega.{mod_fact}
use mathlib.Core.List.{append_assoc, append-nil}
use stream_flow.Dict.{lookup}
use stream_flow.Dict.Laws.{lookup-insert}
use stream_flow.Time.{Time, Duration}
use stream_flow.Processor.Values.{Floats, Record}
use stream_flow.Processor.Windows.{
  time_key, same_time, same_time_iff, truncate, TimedRecord, or_empty, append_to, Buckets,
  tumbling_loop, tumbling_windows,
}

-- The bucket that starts at `b` spans `size`.
truncate-bounds :
    (t : Time) (size : Duration)
    → ltb_ℤ (pos 0) size ≡ true
    → (truncate t size ≤ℤ t) × (ltb_ℤ t (truncate t size +ℤ size) ≡ true)
unfolding ◌+ℤ◌
truncate-bounds (pos n) (pos zero) h = ground arith
truncate-bounds (negsuc n) (pos zero) h = ground arith
truncate-bounds (pos n) (pos (suc d)) h = ground (arith, mod_fact n d)
truncate-bounds (negsuc n) (pos (suc d)) h = ground (arith, mod_fact n d)
truncate-bounds (pos n) (negsuc d) h = ground arith
truncate-bounds (negsuc n) (negsuc d) h = ground arith

module _ (w : Floats) where
  abbrev pub starts_at : Duration → Time → TimedRecord w → Bool
  starts_at size b t = same_time (truncate t.at_time size) b

  abbrev pub in_bucket : Duration → Time → List (TimedRecord w) → List (Record w)
  in_bucket size b ts = map (λ t. t.payload) (filter (starts_at size b) ts)

  lookup-same : (k b : Time) (out : Buckets w) → same_time k b ≡ true → lookup k out ≡ lookup b out
  lookup-same k b out h = ap (λ (x : Time). lookup x out) ((same_time_iff k b).0 h)

  lookup-append_to :
      (k b : Time) (r : Record w) (out : Buckets w)
      → or_empty w (lookup b (append_to w k r out)) ≡ (
          if same_time k b
          then or_empty w (lookup b out) ++ (r ∷ [])
          else or_empty w (lookup b out))
  lookup-append_to k b r out = ground (
    arith,
    same_time_iff k b,
    lookup-insert k b (or_empty w (lookup k out) ++ (r ∷ [])) out,
    lookup-same k b out,
  )

  lookup-tumbling_loop :
      (size : Duration) (b : Time) (ts : List (TimedRecord w)) (out : Buckets w)
      → or_empty w (lookup b (tumbling_loop w size ts out))
        ≡ or_empty w (lookup b out) ++ in_bucket size b ts
  unfolding tumbling_loop
  lookup-tumbling_loop size b [] out = sym (append-nil _)
  lookup-tumbling_loop size b (t ∷ ts) out =
      let k : Time = truncate t.at_time size in
      let old : List (Record w) = or_empty w (lookup b out) in
      elim (Bool-cases (same_time k b)) [
        | inl e ↦
            lookup-tumbling_loop size b ts (append_to w k t.payload out)
            ∙ rw (lookup-append_to k b t.payload out, e)
                (append_assoc old (t.payload ∷ []) (in_bucket size b ts))
        | inr e ↦
            lookup-tumbling_loop size b ts (append_to w k t.payload out)
            ∙ rw (lookup-append_to k b t.payload out, e) refl
      ]

  -- With a positive size, the tumbling window that starts at a time holds, in their order, the
  -- records whose time is truncated to it, and a record whose time is truncated to it is at or
  -- after the start and before the start plus the size.
  pub lookup-tumbling_windows :
      (ts : List (TimedRecord w)) (size : Duration) (b : Time) (t : TimedRecord w)
      → ltb_ℤ (pos 0) size ≡ true
      → starts_at size b t ≡ true
      → (or_empty w (lookup b (tumbling_windows w ts size)) ≡ in_bucket size b ts)
        × (b ≤ℤ t.at_time)
        × (ltb_ℤ t.at_time (b +ℤ size) ≡ true)
  unfolding tumbling_windows lookup
  lookup-tumbling_windows ts size b t h e =
      let bounds : (b ≤ℤ t.at_time) × (ltb_ℤ t.at_time (b +ℤ size) ≡ true) =
        rw (← (same_time_iff (truncate t.at_time size) b).0 e) (truncate-bounds t.at_time size h) in
      (lookup-tumbling_loop size b ts [], bounds.0, bounds.1)
