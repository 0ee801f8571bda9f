-- ===== src/Raft/Transport/Invariant.antt =====
-- The invariant of a transport, and the changes of its maps that keep it.
use stream_flow.Prelude.{
  ℕ, suc, ◌≡◌, ◌<◌, ◌≤◌, ◌≢◌, ◌⊎◌, inl, inr, refl, ap, ◌∙◌, false, some, Bytes, bytes_key,
  number_key, length, arith, Bool-cases, ◌==◌, ==_iff,
}
use stream_flow.Dict.{Dict, lookup, insert, delete, IsDistinct}
use stream_flow.Dict.Laws.{lookup-insert, lookup-insert_self, insert-IsDistinct, delete-IsDistinct}
use stream_flow.Dict.Cases.{lookup-insert_cases, lookup-delete_cases}
use stream_flow.Raft.Transport.{
  new_channel, InProcTransport, Channel, new_in_proc_transport, shut, register_new, close_channel,
}

abbrev pub IsOpen : Dict ℕ Channel → ℕ → Type 0
IsOpen chs i = (c : Channel) × (lookup i chs ≡ some c) × (c.is_closed ≡ false)

abbrev pub AreOpen : Dict ℕ Channel → Dict Bytes ℕ → Type 0
AreOpen chs m = (a : Bytes) (i : ℕ) → lookup a m ≡ some i → IsOpen chs i

abbrev pub IsInjective : Dict Bytes ℕ → Type 0
IsInjective m = (a b : Bytes) (i : ℕ) → lookup a m ≡ some i → lookup b m ≡ some i → a ≡ b

abbrev pub AreBounded : ℕ → ℕ → Dict ℕ Channel → Type 0
AreBounded next buf chs =
    (i : ℕ) (c : Channel) → lookup i chs ≡ some c → (i < next) × (length c.buffered ≤ buf)

-- An address has one channel, which is open and has no other address, and no channel holds more
-- than the buffer.
pub record IsSafe (t : InProcTransport) : Type 0 where
  pub addresses : IsDistinct t.peers
  pub are_open : AreOpen t.channels t.peers
  pub is_injective : IsInjective t.peers
  pub are_bounded : AreBounded t.next_channel t.buf t.channels

pub new-IsSafe : (buf : ℕ) → IsSafe (new_in_proc_transport buf)
unfolding lookup
new-IsSafe buf = record {
  addresses = tt;
  are_open = λ a i h. ground arith;
  is_injective = λ a b i h k. ground arith;
  are_bounded = λ i c h. ground arith;
}

-- A number that is not given out is that of no peer.
pub not-below :
    (t : InProcTransport) → IsSafe t → (a : Bytes) → lookup a t.peers ≢ some t.next_channel
not-below t s a h =
    omega (arith, (s.are_bounded t.next_channel _ (s.are_open a t.next_channel h).1).0)

-- A new state of a channel leaves it open where no peer has it or the state is open.
pub insert-AreOpen :
    (i : ℕ) (c : Channel) (chs : Dict ℕ Channel) (j : ℕ)
    → IsOpen chs j
    → (i ≢ j) ⊎ (c.is_closed ≡ false)
    → IsOpen (insert i c chs) j
insert-AreOpen i c chs j (d, e, o) h = ground (arith, lookup-insert i j c chs, ==_iff i j, e, o, h)

pub insert-AreBounded :
    (i next buf : ℕ) (c : Channel) (chs : Dict ℕ Channel)
    → AreBounded next buf chs
    → i < next
    → length c.buffered ≤ buf
    → AreBounded next buf (insert i c chs)
insert-AreBounded i next buf c chs b p q j d h = elim (lookup-insert_cases i j c d chs h) [
  | inl (e, f) ↦ ground (arith, e, f, p, q)
  | inr (n, old) ↦ b j d old
]

pub register_new-IsSafe :
    (addr : Bytes) (t : InProcTransport) → IsSafe t → IsSafe (register_new addr t)
register_new-IsSafe addr t s = record {
  addresses = insert-IsDistinct addr t.next_channel t.peers s.addresses;
  are_open = λ a i h. elim (lookup-insert_cases addr a t.next_channel i t.peers h) [
    | inl (e, f) ↦ (
      new_channel,
      ground (arith, f, lookup-insert_self t.next_channel new_channel t.channels),
      refl,
    )
    | inr (n, old) ↦
        insert-AreOpen t.next_channel new_channel t.channels i (s.are_open a i old) (inr refl)
  ];
  is_injective = λ a b i h k. ground (
    arith,
    lookup-insert_cases addr a t.next_channel i t.peers h,
    lookup-insert_cases addr b t.next_channel i t.peers k,
    not-below t s a,
    not-below t s b,
    s.is_injective a b i,
  );
  are_bounded =
      insert-AreBounded t.next_channel (suc t.next_channel) t.buf new_channel t.channels
        (λ i c h. ((omega (arith, (s.are_bounded i c h).0)), (s.are_bounded i c h).1)) (omega arith)
        (omega arith);
}

pub close_channel-IsOpen :
    (chs : Dict ℕ Channel) (i : ℕ)
    → IsOpen chs i
    → (c : Channel) × (lookup i chs ≡ some c) × (close_channel i chs ≡ some (insert i (shut c) chs))
unfolding close_channel
close_channel-IsOpen chs i (c, e, o) = (c, e, rw (e, o) refl)

-- What the closing of the channel `i` leaves open.
pub delete-IsSafe :
    (addr : Bytes) (i : ℕ) (c : Channel) (t : InProcTransport)
    → IsSafe t
    → lookup addr t.peers ≡ some i
    → lookup i t.channels ≡ some c
    → IsSafe (record t { channels = insert i (shut c) t.channels; peers = delete addr t.peers })
delete-IsSafe addr i c t s here found = record {
  addresses = delete-IsDistinct addr t.peers s.addresses;
  are_open = λ a j h.
      let (other, old) = lookup-delete_cases addr a j t.peers s.addresses h in
      insert-AreOpen i (shut c) t.channels j (s.are_open a j old)
        (inl (λ e. other (s.is_injective addr a j (here ∙ ap some e) old)));
  is_injective = λ a b j h k.
      s.is_injective a b j (lookup-delete_cases addr a j t.peers s.addresses h).1
        (lookup-delete_cases addr b j t.peers s.addresses k).1;
  are_bounded =
      insert-AreBounded i t.next_channel t.buf (shut c) t.channels s.are_bounded
        (s.are_bounded i c found).0 (s.are_bounded i c found).1;
}

-- Another state of an open channel, within the buffer.
pub change-IsSafe :
    (i : ℕ) (c c' : Channel) (t : InProcTransport)
    → IsSafe t
    → lookup i t.channels ≡ some c
    → c'.is_closed ≡ c.is_closed
    → length c'.buffered ≤ t.buf
    → IsSafe (record t { channels = insert i c' t.channels })
change-IsSafe i c c' t s found same fits = record {
  addresses = s.addresses;
  are_open = λ a j h.
      let (d, e, o) = s.are_open a j h in
      elim (Bool-cases (i == j)) [
        | inl here ↦
            let at_i : lookup i t.channels ≡ some d =
              ap (λ (n : ℕ). lookup n t.channels) ((==_iff i j).0 here) ∙ e in
            insert-AreOpen i c' t.channels j (d, e, o) (inr (same ∙ cc (found, at_i, o)))
        | inr other ↦
            insert-AreOpen i c' t.channels j (d, e, o)
              (inl (λ n. ground (arith, other, ==_iff i j, n)))
      ];
  is_injective = s.is_injective;
  are_bounded =
      insert-AreBounded i t.next_channel t.buf c' t.channels s.are_bounded
        (s.are_bounded i c found).0 fits;
}
