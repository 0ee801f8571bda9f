-- ===== src/Segment/Log.antt =====
-- A segment that was filled by appends is a list of records: the one at place `i` has the offset `i`.
use stream_flow.Prelude.{
  ◌==◌, ◌||◌, bytes_key, ℕ, zero, suc, ◌+◌, ◌-◌, ◌^◌, ◌≤◌, ◌<◌, ◌≡◌, ◌≢◌, ◌⊎◌, refl, sym, ap, ◌∙◌,
  not, none, some, List, [], ◌∷◌, ◌++◌, length, take, drop, arith, leb, number_key, get_elem?,
  if◌then◌else◌, length-append, Bool-cases, inl, inr, leb→le, not-leb→lt, drop_here, Bytes,
  get_elem?-append, get_elem?-lt, drop_all, length-drop, take-min,
}
use Prim.Native.Nat.{min, max}
use mathlib.Core.Path.{ap₂, subst₂}
use stream_flow.Prelude.Action.{Result, ok, err}
use stream_flow.Dict.{Dict, lookup, insert, keys}
use stream_flow.Int64.{less, is_neg}
use stream_flow.Sort.{sort, place}
use stream_flow.Segment.{Segment, Error, persist_failed, Writes, append}
use stream_flow.Segment.Append.{Stored, HasRoom, append_effect}
use stream_flow.Segment.Invariant.{IsValid, append-IsValid}
use stream_flow.Segment.Range.{read_all, read_range-read_all}
use stream_flow.Segment.Read.{read_by_offset, read_range, keys_from, default_limit}
use stream_flow.Segment.ReadBack.{read-append_other, next_offset-fresh, Stored-read}
use stream_flow.Segment.Record.{LogRecord, Json, RoundTrips}

-- a, a + 1, …, a + n - 1
abbrev pub count_up : ℕ → ℕ → List ℕ
count_up a zero = []
count_up a (suc n) = a ∷ count_up (a + 1) n

pub record IsLog (json : Json) (s : Segment) (rs : List LogRecord) : Type 0 where
  pub valid : IsValid s
  pub next : s.next_offset ≡ length rs
  pub listed : keys s.offsets ≡ count_up 0 (length rs)
  pub stored : (i : ℕ) (r : LogRecord) → get_elem? rs i ≡ some r → read_by_offset json s i ≡ ok r

count_up-suc : (a n : ℕ) → count_up a n ++ ((a + n) ∷ []) ≡ count_up a (suc n)
count_up-suc a zero = ap (λ k. k ∷ []) (omega arith)
count_up-suc a (suc n) =
    let e : a + suc n ≡ a + 1 + n = omega arith in ap (λ l. a ∷ l) (rw e (count_up-suc (a + 1) n))

sort-count_up : (a n : ℕ) → a + n ≤ 2 ^ 63 → sort less (count_up a n) ≡ count_up a n
unfolding sort place
sort-count_up a zero h = refl
sort-count_up a (suc zero) h = refl
sort-count_up a (suc (suc n)) h =
    let e : sort less (count_up (a + 1) (suc n)) ≡ count_up (a + 1) (suc n) =
      sort-count_up (a + 1) (suc n) (omega arith) in
    rw e (ground arith)

-- Where reading from `from` starts: at 0 if it is negative.
abbrev pub start_of : ℕ → ℕ
start_of from = if is_neg from then 0 else from

start_of_bound : (from : ℕ) → start_of from < 2 ^ 63
start_of_bound from = ground arith

kept_iff : (from a : ℕ) → a < 2 ^ 63 → not (less a from) ≡ leb (start_of from) a
kept_iff from a h = ground arith

keys_from-count_up :
    (from a n : ℕ)
    → a + n ≤ 2 ^ 63
    → keys_from from (count_up a n)
      ≡ count_up (max a (start_of from)) (a + n - max a (start_of from))
unfolding keys_from
keys_from-count_up from a zero h = let e : a + 0 - max a (start_of from) ≡ 0 = omega arith in rw e
keys_from-count_up from a (suc n) h = elim (Bool-cases (leb (start_of from) a)) [
  | inl reached ↦
      let first : max a (start_of from) ≡ a = omega (arith, leb→le (start_of from) a reached) in
      let next : max (a + 1) (start_of from) ≡ a + 1 =
        omega (arith, leb→le (start_of from) a reached) in
      let all : a + suc n - a ≡ suc n = omega arith in
      let rest : a + 1 + n - (a + 1) ≡ n = omega arith in
      let ih = keys_from-count_up from (a + 1) n (omega arith) in
      rw (kept_iff from a (omega arith), reached, first, all)
        (ap (λ l. a ∷ l)
          (ih ∙ ap₂ (λ b c. count_up b (a + 1 + n - c)) next next ∙ ap (count_up (a + 1)) rest))
  | inr before ↦
      let later : max a (start_of from) ≡ max (a + 1) (start_of from) =
        omega (arith, not-leb→lt (start_of from) a before) in
      let same : a + suc n ≡ a + 1 + n = omega arith in
      rw (kept_iff from a (omega arith), before, later, same)
        (keys_from-count_up from (a + 1) n (omega arith))
]

take-count_up : (m a n : ℕ) → take m (count_up a n) ≡ count_up a (min m n)
take-count_up zero a n = let e : min 0 n ≡ 0 = omega arith in rw e
take-count_up (suc m) a zero = let e : min (suc m) 0 ≡ 0 = omega arith in rw e
take-count_up (suc m) a (suc n) =
    let e : min (suc m) (suc n) ≡ suc (min m n) = omega arith in
    rw e (ap (λ l. a ∷ l) (take-count_up m (a + 1) n))

module _ (json : Json) (s : Segment) (rs : List LogRecord)
    (stored : (i : ℕ) (r : LogRecord)
      → get_elem? rs i ≡ some r
      → read_by_offset json s i ≡ ok r) where
  read_all-count_up :
      (a n : ℕ) → a + n ≤ length rs → read_all json s (count_up a n) ≡ ok (take n (drop a rs))
  unfolding read_all
  read_all-count_up a zero h = refl
  read_all-count_up a (suc n) h =
      let (r, here, rest) = drop_here a rs (omega arith) in
      let e : a + 1 ≡ suc a = omega arith in
      let ih = read_all-count_up (a + 1) n (omega arith) ∙ ap (λ k. ok (take n (drop k rs))) e in
      rw (stored a r here, ih, rest)

  read_all-slice :
      (a m : ℕ) → read_all json s (count_up a (min m (length rs - a))) ≡ ok (take m (drop a rs))
  unfolding read_all
  read_all-slice a m = elim (Bool-cases (leb a (length rs))) [
    | inl inside ↦
        read_all-count_up a (min m (length rs - a)) (omega (arith, leb→le a (length rs) inside))
        ∙ ap (λ k. ok (take (min m k) (drop a rs))) (sym (length-drop a rs))
        ∙ ap ok (take-min m (drop a rs))
    | inr past ↦
        let e : min m (length rs - a) ≡ 0 = omega (arith, not-leb→lt a (length rs) past) in
        let d = drop_all a rs (omega (arith, not-leb→lt a (length rs) past)) in
        rw (e, d) (take_nothing m)
  ]
    where
      take_nothing : (k : ℕ) → ◌≡◌ {A = Result Error (List LogRecord)} (ok []) (ok (take k []))
      take_nothing zero = refl
      take_nothing (suc k) = refl

-- The number of records that may be read for a limit that is an int64.
abbrev pub allowed : ℕ → ℕ
allowed max = if max == 0 || leb 9223372036854775808 max then 100 else max

default_limit-allowed : (max : ℕ) → default_limit max ≡ allowed max
default_limit-allowed max = ground arith

-- Reading a range of a segment that holds a list of records returns the slice of the list from the
-- given offset on (from its start for a negative offset), as many as the limit allows, 100 for a
-- limit that is not positive.
pub read_range-IsLog :
    (json : Json) (s : Segment) (rs : List LogRecord) (from max : ℕ)
    → IsLog json s rs
    → read_range json s from max ≡ ok (take (allowed max) (drop (start_of from) rs))
read_range-IsLog json s rs from max l =
    let at = start_of from in
    let n = length rs in
    let first : Prim.Native.Nat.max 0 at ≡ at = omega arith in
    let count : 0 + n ≡ n = omega arith in
    read_range-read_all json s from max
    ∙ ap (λ ks. read_all json s (take (default_limit max) (sort less (keys_from from ks)))) l.listed
    ∙ ap (λ ks. read_all json s (take (default_limit max) (sort less ks)))
        (keys_from-count_up from 0 n (omega (arith, l.next, l.valid.next_offset))
          ∙ ap₂ (λ b c. count_up b (c - b)) first count)
    ∙ ap (λ ks. read_all json s (take (default_limit max) ks))
        (sort-count_up at (n - at)
          (omega (arith, start_of_bound from, l.next, l.valid.next_offset)))
    ∙ ap (read_all json s) (take-count_up (default_limit max) at (n - at))
    ∙ read_all-slice json s rs l.stored at (default_limit max)
    ∙ ap (λ k. ok (take k (drop at rs))) (default_limit-allowed max)

keys-insert_new :
    (k v : ℕ) (m : Dict ℕ ℕ) → lookup k m ≡ none → keys (insert k v m) ≡ keys m ++ k ∷ []
unfolding keys insert lookup
keys-insert_new k v [] h = refl
keys-insert_new k v ((j, w) ∷ m) h = ground (arith, keys-insert_new k v m)

module _ (json : Json) (w : Writes) (r : LogRecord) (s : Segment) (rs : List LogRecord)
    (l : IsLog json s rs) (room : HasRoom json r s) (back : RoundTrips json r)
    (more : length rs + 1 < 2 ^ 63) where
  abbrev after : Segment
  after = (append json w r s).0

  after-IsValid : IsValid after
  after-IsValid = append-IsValid json w r s l.valid room (omega (arith, l.next))

  older_kept :
      (i : ℕ) (x : LogRecord)
      → i < length rs
      → get_elem? rs i ≡ some x
      → read_by_offset json after i ≡ ok x
  older_kept i x inside found =
      read-append_other json w r s i l.valid room (λ e. omega (arith, l.next, e))
      ∙ l.stored i x found

  longer-IsLog :
      {p : Bytes}
      → Stored r p s after
      → read_by_offset json after s.next_offset ≡ ok r
      → IsLog json after (rs ++ r ∷ [])
  longer-IsLog st new = record {
    valid = after-IsValid;
    next = omega (arith, st.next_offset, l.next, length-append rs (r ∷ []));
    listed =
        let at : s.next_offset ≡ 0 + length rs = omega (arith, l.next) in
        let n : suc (length rs) ≡ length (rs ++ r ∷ []) =
          omega (arith, length-append rs (r ∷ [])) in
        ap keys st.offsets
        ∙ keys-insert_new s.next_offset s.position s.offsets (next_offset-fresh s l.valid)
        ∙ ap₂ (λ ks k. ks ++ k ∷ []) l.listed at
        ∙ count_up-suc 0 (length rs)
        ∙ ap (count_up 0) n;
    stored = λ i x found. elim (get_elem?-append rs r x i found) [
      | inl (e, same) ↦ subst₂ (λ k y. read_by_offset json after k ≡ ok y) (l.next ∙ sym e) same new
      | inr (inside, found') ↦ older_kept i x inside found'
    ];
  }

  -- On a segment that holds a list of records and has room for one more, for a record whose JSON
  -- reads back as it, while the number of records plus one is below 2 ^ 63, an append either adds
  -- its record at the end and returns its place or the error of persisting the indexes, or keeps
  -- the list and returns another error.
  pub append-IsLog :
      (IsLog json after (rs ++ r ∷ [])
        × (((append json w r s).1 ≡ ok (length rs)) ⊎ ((append json w r s).1 ≡ err persist_failed)))
      ⊎ (IsLog json after rs
          × ((e : Error) × ((append json w r s).1 ≡ err e) × (e ≢ persist_failed)))
  append-IsLog = elim (append_effect json w r s l.valid.inside room) [
    | inl (p, made, fits, st, o) ↦ inl (
      longer-IsLog st (Stored-read st l.valid (room p made) json (back p made) fits),
      ground (arith, o, l.next),
    )
    | inr (k, o) ↦ inr (
      record {
        valid = after-IsValid;
        next = k.next_offset ∙ l.next;
        listed = ap keys k.offsets ∙ l.listed;
        stored = λ i x found. older_kept i x (get_elem?-lt rs x i found) found;
      },
      o,
    )
  ]
