-- ===== src/Tests/Transports.antt =====
-- The in-process transport at concrete states.
use stream_flow.Prelude.{◌≡◌, ◌≢◌, refl, some, [], ◌∷◌, Bytes, ascii, bytes_key, number_key}
use stream_flow.Dict.{lookup, insert, delete}
use stream_flow.Raft.Transport.{
  InProcTransport, panicked, new_in_proc_transport, register, close_channel, unregister, offer,
  send, close_all, close_transport, receive,
}
use stream_flow.Raft.Transport.Invariant.{IsSafe}
use stream_flow.Raft.Transport.Safety.{Reachable, starts, registers, sends, Reachable-panics_never}

abbrev registered : InProcTransport
registered = (register (ascii "n1") (new_in_proc_transport 2)).0

abbrev sent : InProcTransport
sent = (send (ascii "n1") (7 ∷ []) registered).0

sent-Reachable : Reachable sent
sent-Reachable = sends (ascii "n1") (7 ∷ []) (registers (ascii "n1") (starts 2))

Reachable-panics_never_example :
    IsSafe sent
    × ((addr : Bytes) → (register addr sent).1 ≢ panicked)
    × ((addr : Bytes) → (unregister addr sent).1 ≢ panicked)
    × ((to payload : Bytes) → (send to payload sent).1 ≢ panicked)
    × ((close_transport sent).1 ≢ panicked)
Reachable-panics_never_example = Reachable-panics_never sent-Reachable

-- The payload is there for the receiver after the transport was closed.
received_after_close : (receive 0 (close_transport sent).0).1 ≡ some (7 ∷ [])
unfolding receive close_transport close_all close_channel send offer register lookup insert
received_after_close = refl

-- `Send` looks up the channel, the address is unregistered, and `Send` goes on.
panic_in_send : (offer 0 (8 ∷ []) (unregister (ascii "n1") sent).0).1 ≡ panicked
unfolding offer unregister close_channel send register lookup insert delete
panic_in_send = refl
