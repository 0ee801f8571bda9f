-- ===== src/Raft/Transport/Safety.antt =====
-- What holds of a transport after any sequence of its operations, each of them whole.
use stream_flow.Prelude.{
  ℕ, ◌≡◌, ◌≤◌, ◌≢◌, inl, inr, refl, sym, ap, ◌∙◌, Bool, true, false, some, List, [], ◌∷◌, Bytes,
  bytes_key, number_key, ltb, length, length-append, arith, Option-cases, Bool-cases, if◌then◌else◌,
}
use stream_flow.Dict.{Dict, lookup, insert, IsDistinct}
use stream_flow.Dict.Cases.{lookup-first, lookup-later}
use stream_flow.Raft.Transport.{
  InProcTransport, Channel, Reply, panicked, new_in_proc_transport, shut, register, unregister,
  offer, send, close_all, close_transport, take_from, receive,
}
use stream_flow.Raft.Transport.Invariant.{
  AreOpen, IsInjective, AreBounded, IsSafe, new-IsSafe, insert-AreOpen, insert-AreBounded,
  register_new-IsSafe, close_channel-IsOpen, delete-IsSafe, change-IsSafe,
}

-- No panic, and a state that is safe again.
abbrev pub IsSound : InProcTransport × Reply → Type 0
IsSound r = IsSafe r.0 × (r.1 ≢ panicked)

if-IsSound :
    (b : Bool) {x y : InProcTransport × Reply}
    → IsSound x
    → IsSound y
    → IsSound (if b then x else y)
if-IsSound true h k = h
if-IsSound false h k = k

register-IsSound : (addr : Bytes) (t : InProcTransport) → IsSafe t → IsSound (register addr t)
unfolding register
register-IsSound addr t s =
    if-IsSound t.closed (s, λ h. ground arith)
      (elim (Option-cases (lookup addr t.peers)) [
        | inl f ↦ rw f (register_new-IsSafe addr t s, λ h. ground arith)
        | inr (i, f) ↦ rw f (s, λ h. ground arith)
      ])

unregister-IsSound : (addr : Bytes) (t : InProcTransport) → IsSafe t → IsSound (unregister addr t)
unfolding unregister
unregister-IsSound addr t s = elim (Option-cases (lookup addr t.peers)) [
  | inl f ↦ rw f (s, λ h. ground arith)
  | inr (i, f) ↦
      let (c, found, closes) = close_channel-IsOpen t.channels i (s.are_open addr i f) in
      rw (f, closes) (delete-IsSafe addr i c t s f found, λ h. ground arith)
]

send-IsSound : (to payload : Bytes) (t : InProcTransport) → IsSafe t → IsSound (send to payload t)
unfolding send offer
send-IsSound to payload t s = elim (Option-cases (lookup to t.peers)) [
  | inl f ↦ rw f (s, λ h. ground arith)
  | inr (i, f) ↦
      let (c, found, opened) = s.are_open to i f in
      elim (Bool-cases (ltb (length c.buffered) t.buf)) [
        | inl room ↦
            rw (f, found, opened, room)
              (
                change-IsSafe i c _ t s found (sym opened)
                    (ground (arith, room, length-append c.buffered (payload ∷ []))),
                λ h. ground arith,
              )
        | inr full ↦ rw (f, found, opened, full) (s, λ h. ground arith)
      ]
]

take_from-IsSafe :
    (i : ℕ) (t : InProcTransport) (c : Channel) (bs : List Bytes)
    → IsSafe t
    → lookup i t.channels ≡ some c
    → length bs ≤ t.buf
    → IsSafe (take_from i t c bs).0
take_from-IsSafe i t c [] s e fits = s
take_from-IsSafe i t c (b ∷ bs) s e fits =
    change-IsSafe i c (record c { buffered = bs }) t s e refl (omega (arith, fits))

receive-IsSafe : (i : ℕ) (t : InProcTransport) → IsSafe t → IsSafe (receive i t).0
unfolding receive
receive-IsSafe i t s = elim (Option-cases (lookup i t.channels)) [
  | inl e ↦ rw e s
  | inr (c, e) ↦ rw e (take_from-IsSafe i t c c.buffered s e (s.are_bounded i c e).1)
]

-- All channels of distinct peers close without a panic.
close_all-AreBounded :
    (m : Dict Bytes ℕ) (next buf : ℕ) (chs : Dict ℕ Channel)
    → IsDistinct m
    → IsInjective m
    → AreOpen chs m
    → AreBounded next buf chs
    → (chs' : Dict ℕ Channel) × (close_all m chs ≡ some chs') × AreBounded next buf chs'
unfolding close_all
close_all-AreBounded [] next buf chs d n o b = (chs, refl, b)
close_all-AreBounded ((k, i) ∷ m) next buf chs d n o b =
    let later = lookup-later k i m d.0 in
    let here : lookup k ((k, i) ∷ m) ≡ some i = lookup-first k i m in
    let (c, found, closes) = close_channel-IsOpen chs i (o k i here) in
    let (chs', closed, bounded) =
      close_all-AreBounded m next buf (insert i (shut c) chs) d.1
        (λ a b' j h h'. n a b' j (later a j h).1 (later b' j h').1)
        (λ a j h.
          insert-AreOpen i (shut c) chs j (o a j (later a j h).1)
            (inl (λ e. (later a j h).0 (n k a j (here ∙ ap some e) (later a j h).1))))
        (insert-AreBounded i next buf (shut c) chs b (b i c found).0 (b i c found).1) in
    (chs', rw (closes, close_all) closed, bounded)

close_transport-IsSound : (t : InProcTransport) → IsSafe t → IsSound (close_transport t)
unfolding close_transport lookup
close_transport-IsSound t s =
    let (chs, all_closed, bounded) =
      close_all-AreBounded t.peers t.next_channel t.buf t.channels s.addresses s.is_injective
        s.are_open s.are_bounded in
    if-IsSound t.closed (s, λ h. ground arith)
      (rw all_closed (
        record {
          addresses = tt;
          are_open = λ a i h. ground arith;
          is_injective = λ a b i h k. ground arith;
          are_bounded = bounded;
        },
        λ h. ground arith,
      ))

-- The states that whole operations lead to.
pub data Reachable : InProcTransport → Type 0 where
  starts : (buf : ℕ) → Reachable (new_in_proc_transport buf)
  registers : (addr : Bytes) {t : InProcTransport} → Reachable t → Reachable (register addr t).0
  unregisters : (addr : Bytes) {t : InProcTransport} → Reachable t → Reachable (unregister addr t).0
  sends : (to payload : Bytes) {t : InProcTransport} → Reachable t → Reachable (send to payload t).0
  receives : (i : ℕ) {t : InProcTransport} → Reachable t → Reachable (receive i t).0
  closes : {t : InProcTransport} → Reachable t → Reachable (close_transport t).0

Reachable-IsSafe : {t : InProcTransport} → Reachable t → IsSafe t
Reachable-IsSafe (starts buf) = new-IsSafe buf
Reachable-IsSafe (registers addr r) = (register-IsSound addr _ (Reachable-IsSafe r)).0
Reachable-IsSafe (unregisters addr r) = (unregister-IsSound addr _ (Reachable-IsSafe r)).0
Reachable-IsSafe (sends to payload r) = (send-IsSound to payload _ (Reachable-IsSafe r)).0
Reachable-IsSafe (receives i r) = receive-IsSafe i _ (Reachable-IsSafe r)
Reachable-IsSafe (closes r) = (close_transport-IsSound _ (Reachable-IsSafe r)).0

-- In every state that whole registrations, deregistrations, sends, receptions and closings lead to
-- from a new in-process transport, each address has a channel of its own that is open, no channel
-- holds more payloads than the buffer, and none of the next operations closes a closed channel or
-- sends on one.
pub Reachable-panics_never :
    {t : InProcTransport}
    → Reachable t
    → IsSafe t
      × ((addr : Bytes) → (register addr t).1 ≢ panicked)
      × ((addr : Bytes) → (unregister addr t).1 ≢ panicked)
      × ((to payload : Bytes) → (send to payload t).1 ≢ panicked)
      × ((close_transport t).1 ≢ panicked)
Reachable-panics_never r =
    let s = Reachable-IsSafe r in
    (
      s,
      λ addr. (register-IsSound addr _ s).1,
      λ addr. (unregister-IsSound addr _ s).1,
      λ to payload. (send-IsSound to payload _ s).1,
      (close_transport-IsSound _ s).1,
    )
