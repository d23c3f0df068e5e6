-- ===== src/Invariant/Sessions.antt =====
-- The handlers one by one: their connection, and its state.
use tcp_dpdk.Base.{
  ℕ, ◌<◌, ◌≡◌, ◌⊎◌, refl, inl, inr, true, false, List, [], u32_mod, add32, int_to_size, ok, Returns,
  bind-Returns, arith,
}
use tcp_dpdk.Flags.{has_flag, clear_flag, set_flag}
use tcp_dpdk.Connection.{
  Connection, TcpHdr, TcpState, established, syn_sent, syn_recv, fin_wait1, fin_wait2, close_wait,
  last_ack,
}
use tcp_dpdk.Dpdk.{Dpdk, IsDpdk}
use tcp_dpdk.Tcp.{Session}
use tcp_dpdk.Tx.{fill_headers}
use tcp_dpdk.Tx.Effects.{IsSized, Returns-plain, Returns-syn, Returns-fin}
use tcp_dpdk.Handlers.Printing.{with_printed, print_data-ok}
use tcp_dpdk.Handlers.{
  handle_tcp_syn_recv, rearmed, retransmit_syn, seq_of, ackn_of, answering, take_syn_ack, forget,
  enter, handle_tcp_establish, reply, handle_tcp_syn_sent, handle_tcp_fin_wait1, count_connection,
}
use tcp_dpdk.Invariant.{IsFlags, StateInv, IsSound, Keeps}

-- A set flag among the two sets of flags that a half-open connection has.
pub syn_again :
    (flags : ℕ)
    → IsFlags flags
    → (has_flag (set_flag flags 0x02) 0x02 ≡ true)
      × (clear_flag (set_flag flags 0x02) 0x02 ≡ flags)
      × (has_flag flags 0x01 ≡ false)
unfolding has_flag clear_flag set_flag
syn_again flags (inl e) = rw e (refl, refl, refl)
syn_again flags (inr e) = rw e (refl, refl, refl)

-- How a packet moves the state of its connection.
abbrev pub RxMove : TcpState → TcpState → Type 0
RxMove a b =
    (a ≡ b)
    ⊎ (a ≡ syn_recv) × (b ≡ established)
    ⊎ (a ≡ syn_sent) × (b ≡ established)
    ⊎ (a ≡ established) × (b ≡ last_ack)
    ⊎ (a ≡ fin_wait1) × (b ≡ fin_wait2)

StateInv-congr :
    (state : TcpState) (c e : Connection)
    → c.send ≡ e.send
    → c.tcp_hdr.tcp_flags ≡ e.tcp_hdr.tcp_flags
    → StateInv state c
    → StateInv state e
StateInv-congr established c e s f h = tt
StateInv-congr _ c e s f h = ground arith

pub fill_headers-IsSound :
    {T : Type 0} (d : Dpdk T) (c : Connection) (size : ℕ)
    → IsSound c
    → IsSound (fill_headers d c size)
unfolding fill_headers
fill_headers-IsSound d c size sound = record {
  live = StateInv-congr c.tcp_state c (fill_headers d c size) refl refl sound.live;
  una_range = sound.una_range;
  nxt_range = sound.nxt_range;
  expected_range = sound.expected_range;
  window_range = sound.window_range;
  payload_room = sound.payload_room;
}

module _ {T : Type 0} (d : Dpdk T) (laws : IsDpdk d) where
  retransmit_syn-Keeps :
      (s : Session T) (bytes : List ℕ) (size : ℕ)
      → s.connection.tcp_state ≡ syn_recv
      → IsSound s.connection
      → IsSized bytes (int_to_size size)
      → Returns (retransmit_syn d s bytes size) (Keeps d RxMove s)
  unfolding retransmit_syn fill_headers
  retransmit_syn-Keeps s bytes size state sound sized =
      let flags = syn_again s.connection.tcp_hdr.tcp_flags (rw state at sound.live).2 in
      Returns-syn d laws (record s { connection = rearmed s.connection }) bytes (int_to_size size)
        (Keeps d RxMove s) sized flags.0 (rw flags.1 flags.2)
        (record { same_quad = refl; moved = inl refl; table = inl (refl, ground (arith, flags)) })

  pub handle_tcp_syn_recv-Keeps :
      (s : Session T) (hdr : TcpHdr) (bytes : List ℕ) (size now : ℕ)
      → s.connection.tcp_state ≡ syn_recv
      → IsSound s.connection
      → IsSized bytes (int_to_size size)
      → Returns (handle_tcp_syn_recv d s hdr bytes size now) (Keeps d RxMove s)
  unfolding handle_tcp_syn_recv count_connection
  handle_tcp_syn_recv-Keeps s hdr bytes size now state sound sized =
      ground (arith, retransmit_syn-Keeps s bytes size state sound sized)

  -- An answer with a bare ACK.
  reply-Keeps_ack :
      (s r : Session T) (state : TcpState) (nxt : ℕ) (bytes : List ℕ) (size : ℕ)
      → IsSized bytes size
      → s.connection.q ≡ r.connection.q
      → s.tcp.rte_hash ≡ r.tcp.rte_hash
      → RxMove r.connection.tcp_state state
      → IsSound (answering s.connection state nxt 0x10)
      → Returns (reply d s state nxt 0x10 bytes size) (Keeps d RxMove r)
  unfolding reply fill_headers has_flag
  reply-Keeps_ack s r state nxt bytes size sized quad hash move sound =
      Returns-plain d laws (record s { connection = answering s.connection state nxt 0x10 }) bytes
        size (Keeps d RxMove r) sized refl refl
        (record {
          same_quad = quad;
          moved = move;
          table =
              inl (hash, fill_headers-IsSound d (answering s.connection state nxt 0x10) size sound);
        })

  -- FIN and ACK, and the last state before the connection is gone.
  reply-Keeps_fin :
      (s : Session T) (nxt : ℕ) (bytes : List ℕ) (size : ℕ)
      → IsSized bytes size
      → nxt < u32_mod
      → s.connection.tcp_state ≡ established
      → IsSound s.connection
      → Returns
          (reply d s close_wait nxt 0x11 bytes size)
          (λ t. Keeps d RxMove s (enter last_ack t))
  unfolding reply fill_headers has_flag
  reply-Keeps_fin s nxt bytes size sized range state sound =
      Returns-fin d laws (record s { connection = answering s.connection close_wait nxt 0x11 })
        bytes size _ sized refl refl
        (record {
          same_quad = refl;
          moved = inr (inr (inr (inl (state, refl))));
          table = inl (refl, ground arith);
        })

  pub handle_tcp_establish-Keeps :
      (s : Session T) (hdr : TcpHdr) (bytes : List ℕ) (size : ℕ)
      → s.connection.tcp_state ≡ established
      → IsSound s.connection
      → IsSized bytes (int_to_size size)
      → Returns (handle_tcp_establish d s hdr bytes size) (Keeps d RxMove s)
  unfolding handle_tcp_establish set_flag
  handle_tcp_establish-Keeps s hdr bytes size state sound sized =
      let seq = seq_of d hdr in
      let c = s.connection in
      let acked = record c { send = record c.send { nxt = ackn_of d hdr } } in
      ground (
        arith,
        laws.be_to_cpu_32-lt hdr.recv_ack,
        bind-Returns (reply d s close_wait (add32 seq 1) 0x11 bytes (int_to_size size))
            (λ t. ok (enter last_ack t)) (Keeps d RxMove s)
            (reply-Keeps_fin s (add32 seq 1) bytes (int_to_size size) sized (omega arith) state
              sound),
        print_data-ok s.tcp bytes size sized.0 sized.1,
        reply-Keeps_ack (record { tcp = with_printed s.tcp bytes size; connection = acked }) s
            c.tcp_state (add32 seq size) [] 0 (omega arith) refl refl (inl refl),
      )

  take_syn_ack-IsSound :
      (c : Connection) (ackn nxt : ℕ)
      → c.tcp_state ≡ syn_sent
      → IsSound c
      → nxt < u32_mod
      → IsSound (answering (take_syn_ack c ackn) (take_syn_ack c ackn).tcp_state nxt 0x10)
  unfolding take_syn_ack
  take_syn_ack-IsSound c ackn nxt state sound range = ground arith

  q-take_syn_ack : (c : Connection) (ackn : ℕ) → (take_syn_ack c ackn).q ≡ c.q
  unfolding take_syn_ack
  q-take_syn_ack c ackn = ground arith

  take_syn_ack-RxMove :
      (c : Connection) (ackn : ℕ)
      → c.tcp_state ≡ syn_sent
      → RxMove c.tcp_state (take_syn_ack c ackn).tcp_state
  unfolding take_syn_ack
  take_syn_ack-RxMove c ackn state = ground arith

  pub handle_tcp_syn_sent-Keeps :
      (s : Session T) (hdr : TcpHdr) (bytes : List ℕ) (size : ℕ)
      → s.connection.tcp_state ≡ syn_sent
      → IsSound s.connection
      → IsSized bytes (int_to_size size)
      → Returns (handle_tcp_syn_sent d s hdr bytes size) (Keeps d RxMove s)
  unfolding handle_tcp_syn_sent
  handle_tcp_syn_sent-Keeps s hdr bytes size state sound sized =
      let seq = seq_of d hdr in
      let c = record s.connection { recv = record s.connection.recv { nxt = seq } } in
      let taken = take_syn_ack c (ackn_of d hdr) in
      let seen : IsSound c = ground (arith, laws.be_to_cpu_32-lt hdr.sent_seq) in
      ground (
        arith,
        seen,
        reply-Keeps_ack (record s { connection = taken }) s taken.tcp_state (add32 seq 1) bytes
            (int_to_size size) sized (q-take_syn_ack c (ackn_of d hdr)) refl
            (take_syn_ack-RxMove c (ackn_of d hdr) state)
            (take_syn_ack-IsSound c (ackn_of d hdr) (add32 seq 1) state seen (omega arith)),
      )

  -- The last answer, and the key is deleted.
  reply-Keeps_last :
      (s : Session T) (nxt : ℕ) (bytes : List ℕ) (size : ℕ)
      → IsSized bytes size
      → s.connection.tcp_state ≡ fin_wait1
      → Returns (reply d s fin_wait2 nxt 0x10 bytes size) (λ t. Keeps d RxMove s (forget d t))
  unfolding reply fill_headers has_flag
  reply-Keeps_last s nxt bytes size sized state =
      Returns-plain d laws (record s { connection = answering s.connection fin_wait2 nxt 0x10 })
        bytes size (λ t. Keeps d RxMove s (forget d t)) sized refl refl
        (record {
          same_quad = refl;
          moved = inr (inr (inr (inr (state, refl))));
          table = inr (refl, refl);
        })

  pub handle_tcp_fin_wait1-Keeps :
      (s : Session T) (hdr : TcpHdr) (size : ℕ)
      → s.connection.tcp_state ≡ fin_wait1
      → IsSound s.connection
      → Returns (handle_tcp_fin_wait1 d s hdr size) (Keeps d RxMove s)
  unfolding handle_tcp_fin_wait1
  handle_tcp_fin_wait1-Keeps s hdr size state sound =
      let nxt = add32 (seq_of d hdr) 1 in
      ground (
        arith,
        bind-Returns (reply d s fin_wait2 nxt 0x10 [] 0) (λ t. ok (forget d t)) (Keeps d RxMove s)
            (reply-Keeps_last s nxt [] 0 (omega arith) state),
      )
