-- ===== src/Invariant/Reach.antt =====
-- Whatever packets arrive and whatever the command line asks for, in any order.
use tcp_dpdk.Base.{
  ℕ, ◌≤◌, ◌≡◌, Bool, true, false, List, [], ◌∷◌, none, some, ok, OrNull, IsNull, bind-Within, arith,
  length, All, ◌≢◌,
}
use tcp_dpdk.Connection.{
  Connection, Quad, TcpState, established, syn_sent, syn_recv, fin_wait1, fin_wait2, time_wait,
  close, close_wait, last_ack, closing,
}
use tcp_dpdk.Dpdk.{Dpdk, IsDpdk}
use tcp_dpdk.Tcp.{Core}
use tcp_dpdk.Rx.{Packet, rx_packet, rx_burst, tcp_rx_packets}
use tcp_dpdk.Active.{active_connect, active_close, active_send_data}
use tcp_dpdk.Invariant.{StateInv, IsWellFormed}
use tcp_dpdk.Invariant.Cases.{IsSane}
use tcp_dpdk.Invariant.Calls.{rx_packet-OrNull}
use tcp_dpdk.Invariant.Commands.{
  active_connect-IsWellFormed, active_close-IsWellFormed, active_send_data-IsWellFormed,
}

abbrev HalfClosedNot : TcpState → Type 0
HalfClosedNot state =
    (state ≢ fin_wait2)
    × (state ≢ close)
    × (state ≢ close_wait)
    × (state ≢ time_wait)
    × (state ≢ closing)

live_states : (state : TcpState) (c : Connection) → StateInv state c → HalfClosedNot state
live_states established c h = ground arith
live_states syn_sent c h = ground arith
live_states syn_recv c h = ground arith
live_states fin_wait1 c h = ground arith
live_states last_ack c h = ground arith
live_states _ c h = absurd h

module _ {T : Type 0} (d : Dpdk T) where
  -- A sane packet, or a command for a connection that the table has, each as one step.
  pub data Step (s u : Core T) : Type 0 where
    receives : (pkt : Packet) → IsSane d pkt → rx_packet d s pkt ≡ ok u → Step s u
    connects :
        (dip dport sport padding : ℕ) → active_connect d s dip dport sport padding ≡ ok u → Step s u
    closes :
        (q : Quad) (p : ℕ)
        → d.hash_lookup_data s.tcp.rte_hash q ≡ some p
        → active_close d s p ≡ ok u
        → Step s u
    sends :
        (q : Quad) (p : ℕ) (bytes : List ℕ)
        → d.hash_lookup_data s.tcp.rte_hash q ≡ some p
        → length bytes ≤ 100
        → active_send_data d s p bytes ≡ ok u
        → Step s u
    quits : u ≡ record s { tcp = record s.tcp { dp_quit = true } } → Step s u

  pub data Reach (s : Core T) : Core T → Type 0 where
    here : Reach s s
    next : {t u : Core T} → Reach s t → Step t u → Reach s u

  module _ (laws : IsDpdk d) where
    Step-IsWellFormed : {s u : Core T} → Step s u → IsWellFormed d s → IsWellFormed d u
    Step-IsWellFormed {s} (receives pkt sane e) wf = rw e at (rx_packet-OrNull d laws s pkt wf sane)
    Step-IsWellFormed {s} (connects dip dport sport padding e) wf =
        rw e at (active_connect-IsWellFormed d laws s dip dport sport padding wf)
    Step-IsWellFormed {s} (closes q p at_q e) wf =
        rw e at (active_close-IsWellFormed d laws s q p wf at_q)
    Step-IsWellFormed {s} (sends q p bytes at_q short e) wf =
        rw e at (active_send_data-IsWellFormed d laws s q p bytes wf at_q short)
    Step-IsWellFormed (quits e) wf = rw e wf

    Reach-IsWellFormed : {s u : Core T} → IsWellFormed d s → Reach s u → IsWellFormed d u
    Reach-IsWellFormed wf here = wf
    Reach-IsWellFormed wf (next r st) = Step-IsWellFormed st (Reach-IsWellFormed wf r)

    -- A core whose table starts empty.
    pub Reach-empty-IsWellFormed :
        {s u : Core T}
        → ((q : Quad) → d.hash_lookup_data s.tcp.rte_hash q ≡ none)
        → Reach s u
        → IsWellFormed d u
    Reach-empty-IsWellFormed {s} empty r =
        Reach-IsWellFormed (λ q p found. absurd (ground (arith, empty q))) r

    rx_burst-OrNull :
        (s : Core T) (pkts : List Packet)
        → IsWellFormed d s
        → All (IsSane d) pkts
        → OrNull (rx_burst d s pkts) (IsWellFormed d)
    unfolding rx_burst
    rx_burst-OrNull s [] wf sane = wf
    rx_burst-OrNull s (pkt ∷ pkts) wf sane =
        bind-Within IsNull (rx_packet d s pkt) (λ s'. rx_burst d s' pkts) (IsWellFormed d)
          (IsWellFormed d) (rx_packet-OrNull d laws s pkt wf sane.0)
          (λ s' wf'. rx_burst-OrNull s' pkts wf' sane.1)

    -- DPDK is taken to behave as documented. A packet is sane if its IPv4 length covers its
    -- headers, its data lie in the buffer, and they are at most 100 bytes. The receive loop on any
    -- bursts of sane packets, from a well-formed core: it ends in a well-formed core, or by a NULL
    -- pointer, and by no other fault of the model, which are a pointer to a connection that was
    -- freed, a read or a write past the end of an object, `rte_panic` and `exit`. That `send_p`
    -- gives a buffer back which the driver has is not one of these faults.
    pub tcp_rx_packets-OrNull :
        (s : Core T) (rounds : List (Bool × List Packet))
        → IsWellFormed d s
        → All (λ r. All (IsSane d) r.1) rounds
        → OrNull (tcp_rx_packets d s rounds) (IsWellFormed d)
    unfolding tcp_rx_packets
    tcp_rx_packets-OrNull s [] wf sane = wf
    tcp_rx_packets-OrNull s ((true, pkts) ∷ rounds) wf sane = wf
    tcp_rx_packets-OrNull s ((false, pkts) ∷ rounds) wf sane =
        let s' = record s { tcp = record s.tcp { dp_quit = false } } in
        bind-Within IsNull (rx_burst d s' pkts) (λ s''. tcp_rx_packets d s'' rounds)
          (IsWellFormed d) (IsWellFormed d) (rx_burst-OrNull s' pkts wf sane.0)
          (λ s'' wf'. tcp_rx_packets-OrNull s'' rounds wf' sane.1)

    -- DPDK is taken to behave as documented. Start a core with an empty table; then let packets
    -- arrive whose IPv4 length covers the headers and whose data lie in the buffer and are at most
    -- 100 bytes, and let the command line connect, close, quit, and send at most 100 bytes at a
    -- time, for connections of the table and in any order, each as one step. A connection that the
    -- table then has is in none of TCP_FIN_WAIT2, TCP_CLOSE, TCP_CLOSE_WAIT, TCP_TIME_WAIT and
    -- TCP_CLOSING.
    pub reachable_states :
        {s u : Core T} (q : Quad) (p : ℕ) (c : Connection)
        → ((k : Quad) → d.hash_lookup_data s.tcp.rte_hash k ≡ none)
        → Reach s u
        → d.hash_lookup_data u.tcp.rte_hash q ≡ some p
        → u.heap p ≡ some c
        → (c.tcp_state ≢ fin_wait2)
          × (c.tcp_state ≢ close)
          × (c.tcp_state ≢ close_wait)
          × (c.tcp_state ≢ time_wait)
          × (c.tcp_state ≢ closing)
    reachable_states q p c empty r found at_p =
        let (c', at_p', is_q, sound) = Reach-empty-IsWellFormed empty r q p found in
        let same : c' ≡ c = ground arith in live_states c.tcp_state c (rw same at sound.live)
