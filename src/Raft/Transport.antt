-- ===== src/Raft/Transport.antt =====
-- broker/internal/raft/transport_inproc.go: the transport inside one process. A channel has a number,
-- so that a receiver keeps it after its address is gone. The buffer has room for a payload, as
-- wherever the code makes a transport; a panic is a result of its own.
pub mod Invariant
pub mod Safety
use stream_flow.Prelude.{
  ℕ, zero, suc, ◌≡◌, Bool, true, false, Option, none, some, List, [], ◌∷◌, ◌++◌, Bytes, bytes_key,
  number_key, ltb, length, if◌then◌else◌,
}
use stream_flow.Dict.{Dict, lookup, insert, delete}

pub record Channel : Type 0 where
  pub buffered : List Bytes
  pub is_closed : Bool

pub record InProcTransport : Type 0 where
  pub peers : Dict Bytes ℕ
  pub channels : Dict ℕ Channel
  pub next_channel : ℕ
  pub buf : ℕ
  pub closed : Bool

pub data TransportError : Type 0 where
  transport_closed : TransportError
  already_registered : TransportError
  peer_not_found : TransportError
  peer_channel_full : TransportError

pub data Reply : Type 0 where
  accepted : Reply
  refused : TransportError → Reply
  panicked : Reply

abbrev pub new_in_proc_transport : ℕ → InProcTransport
new_in_proc_transport buf = record {
  peers = [];
  channels = [];
  next_channel = 0;
  buf = buf;
  closed = false;
}

abbrev pub new_channel : Channel
new_channel = record { buffered = []; is_closed = false }

abbrev pub register_new : Bytes → InProcTransport → InProcTransport
register_new addr t = record t {
  peers = insert addr t.next_channel t.peers;
  channels = insert t.next_channel new_channel t.channels;
  next_channel = suc t.next_channel;
}

abbrev pub register_at : Bytes → InProcTransport → Option ℕ → InProcTransport × Reply
register_at addr t (some i) = (t, refused already_registered)
register_at addr t none = (register_new addr t, accepted)

-- The channel that is returned is the one that the address then has.
unfoldable pub register : Bytes → InProcTransport → InProcTransport × Reply
register addr t =
    if t.closed then (t, refused transport_closed) else register_at addr t (lookup addr t.peers)

-- `close(ch)`: `none` is the panic on a channel that is closed.
abbrev pub shut : Channel → Channel
shut c = record c { is_closed = true }

abbrev pub close_found : ℕ → Option Channel → Dict ℕ Channel → Option (Dict ℕ Channel)
close_found i none chs = none
close_found i (some c) chs = if c.is_closed then none else some (insert i (shut c) chs)

unfoldable pub close_channel : ℕ → Dict ℕ Channel → Option (Dict ℕ Channel)
close_channel i chs = close_found i (lookup i chs) chs

abbrev pub unregistered :
    Bytes → InProcTransport → Option (Dict ℕ Channel) → InProcTransport × Reply
unregistered addr t none = (t, panicked)
unregistered addr t (some chs) =
    (record t { channels = chs; peers = delete addr t.peers }, accepted)

abbrev pub unregister_at : Bytes → InProcTransport → Option ℕ → InProcTransport × Reply
unregister_at addr t none = (t, accepted)
unregister_at addr t (some i) = unregistered addr t (close_channel i t.channels)

unfoldable pub unregister : Bytes → InProcTransport → InProcTransport × Reply
unfolding close_channel
unregister addr t = unregister_at addr t (lookup addr t.peers)

-- The `select` of `Send` on a channel that was looked up before.
abbrev pub offer_to : ℕ → Bytes → InProcTransport → Option Channel → InProcTransport × Reply
offer_to i payload t none = (t, panicked)
offer_to i payload t (some c) =
    if c.is_closed
    then (t, panicked)
    else if ltb (length c.buffered) t.buf
    then (
      record t {
        channels = insert i (record c { buffered = c.buffered ++ (payload ∷ []) }) t.channels;
      },
      accepted,
    )
    else (t, refused peer_channel_full)

unfoldable pub offer : ℕ → Bytes → InProcTransport → InProcTransport × Reply
offer i payload t = offer_to i payload t (lookup i t.channels)

abbrev pub send_at : Bytes → InProcTransport → Option ℕ → InProcTransport × Reply
send_at payload t none = (t, refused peer_not_found)
send_at payload t (some i) = offer i payload t

-- `Send` when nothing comes between its lookup and its `select`.
unfoldable pub send : Bytes → Bytes → InProcTransport → InProcTransport × Reply
unfolding offer
send to payload t = send_at payload t (lookup to t.peers)

unfoldable pub close_all : Dict Bytes ℕ → Dict ℕ Channel → Option (Dict ℕ Channel)
close_all [] chs = some chs
close_all ((k, i) ∷ m) chs = elim (close_channel i chs) [
  | none ↦ none
  | some chs' ↦ close_all m chs'
]

abbrev pub closed_with : InProcTransport → Option (Dict ℕ Channel) → InProcTransport × Reply
closed_with t none = (t, panicked)
closed_with t (some chs) = (record t { channels = chs; peers = []; closed = true }, accepted)

unfoldable pub close_transport : InProcTransport → InProcTransport × Reply
unfolding close_all
close_transport t = if t.closed then (t, accepted) else closed_with t (close_all t.peers t.channels)

-- A receiver takes what comes first.
abbrev pub take_from : ℕ → InProcTransport → Channel → List Bytes → InProcTransport × Option Bytes
take_from i t c [] = (t, none)
take_from i t c (b ∷ bs) =
    (record t { channels = insert i (record c { buffered = bs }) t.channels }, some b)

abbrev pub take_first : ℕ → InProcTransport → Option Channel → InProcTransport × Option Bytes
take_first i t none = (t, none)
take_first i t (some c) = take_from i t c c.buffered

unfoldable pub receive : ℕ → InProcTransport → InProcTransport × Option Bytes
receive i t = take_first i t (lookup i t.channels)
