-- ===== src/Invariant/Cases.antt =====
-- The ways in which a packet can change a core: a rule for each level of the receive loop.
use tcp_dpdk.Base.{
  ℕ, ◌≡◌, refl, true, false, List, none, some, int_to_size, Outcome, ok, Returns, bind-Returns,
  Returns-mono, arith, length,
}
use tcp_dpdk.Flags.{has_flag, clear_flag, set_flag, syn_flag, fin_flag}
use tcp_dpdk.Connection.{
  Connection, Quad, TcpHdr, Heap, TcpState, established, syn_sent, syn_recv, fin_wait1, last_ack,
}
use tcp_dpdk.Dpdk.{Dpdk, IsDpdk}
use tcp_dpdk.Tcp.{Session, Core}
use tcp_dpdk.Tx.{tcp_tx_packets, fill_headers}
use tcp_dpdk.Tx.Effects.{IsSized, Returns-syn, counted, sent_as}
use tcp_dpdk.Handlers.{
  store, open_and_send, init_listen, handle_tcp_syn_recv, handle_tcp_establish, handle_tcp_syn_sent,
  handle_tcp_fin_wait1,
}
use tcp_dpdk.Rx.{
  Packet, size_of, quad_of, write_back, at_connection, register, finish_last_ack, dispatch,
}
use tcp_dpdk.Invariant.{IsSound, Keeps}
use tcp_dpdk.Invariant.Sessions.{
  RxMove, handle_tcp_syn_recv-Keeps, handle_tcp_establish-Keeps, handle_tcp_syn_sent-Keeps,
  handle_tcp_fin_wait1-Keeps,
}

module _ {T : Type 0} (d : Dpdk T) where
  -- The IPv4 length of a packet covers its headers, its data lie in the buffer, and they are at
  -- most 100 bytes.
  abbrev pub IsSane : Packet → Type 0
  IsSane pkt = IsSized pkt.bytes (int_to_size (size_of d pkt))

  -- `rte_malloc` does not return NULL.
  abbrev pub Supplies : Heap → Type 0
  Supplies h = (r : ℕ × Connection) × (d.malloc h ≡ some r)

  -- `P` holds after each change that a packet of quad `q` can make to `s`.
  pub record Covers (P : Core T → Type 0) (s : Core T) (q : Quad) : Type 0 where
    -- the packet is ignored
    pub ignored : P s
    -- a new connection at a free address, which the table takes or refuses
    pub opened :
        (u : Core T) (p : ℕ) (c : Connection)
        → d.hash_lookup_data s.tcp.rte_hash q ≡ none
        → s.heap p ≡ none
        → c.q ≡ q
        → c.tcp_state ≡ syn_recv
        → IsSound c
        → u.tcp.rte_hash ≡ s.tcp.rte_hash
        → u.heap ≡ store s.heap p (some c)
        → P (register d q (some p) u)
    -- a handler that keeps its promise
    pub written :
        (p : ℕ) (c : Connection)
        → d.hash_lookup_data s.tcp.rte_hash q ≡ some p
        → s.heap p ≡ some c
        → c.q ≡ q
        → IsSound c
        → (t : Session T) → Keeps d RxMove (record { tcp = s.tcp; connection = c }) t
        → P (write_back d s p t)
    -- the last acknowledgement
    pub finished :
        (p : ℕ) (c : Connection)
        → d.hash_lookup_data s.tcp.rte_hash q ≡ some p
        → s.heap p ≡ some c
        → c.q ≡ q
        → c.tcp_state ≡ last_ack
        → P (finish_last_ack d s p c q)

  pub at_connection_cases :
      {E : Session T → Type 0} (s : Core T) (p : ℕ) (c : Connection) (P : Core T → Type 0)
      → (handler : Session T → Outcome (Session T))
      → ((t : Session T) → E t → P (write_back d s p t))
      → Returns (handler (record { tcp = s.tcp; connection = c })) E
      → Returns (at_connection d s p c handler) P
  at_connection_cases {E} s p c P handler rule keeps =
      let t₀ = handler (record { tcp = s.tcp; connection = c }) in
      bind-Returns t₀ (λ t. ok (write_back d s p t)) P (Returns-mono t₀ E _ rule keeps)

  module _ (laws : IsDpdk d) where
    pub init_listen-IsSound :
        (garbage : Connection) (q : Quad) (hdr : TcpHdr) (size : ℕ)
        → length garbage.payload ≡ 100
        → IsSound (counted d syn_flag (fill_headers d (init_listen d garbage q hdr) size))
    unfolding init_listen fill_headers clear_flag set_flag
    init_listen-IsSound garbage q hdr size room =
        ground (arith, laws.be_to_cpu_32-lt hdr.sent_seq, laws.be_to_cpu_16-lt hdr.rx_win)

  module _ (laws : IsDpdk d) (P : Core T → Type 0) where
    pub dispatch_cases :
        (s : Core T) (p : ℕ) (c : Connection) (pkt : Packet) (state : TcpState)
        → c.tcp_state ≡ state
        → Covers P s (quad_of pkt)
        → d.hash_lookup_data s.tcp.rte_hash (quad_of pkt) ≡ some p
        → s.heap p ≡ some c
        → c.q ≡ quad_of pkt
        → IsSound c
        → IsSane pkt
        → Returns (dispatch d state s p c pkt) P
    unfolding dispatch
    dispatch_cases s p c pkt syn_recv e cover at_q at_p is_q sound sane =
        at_connection_cases s p c P
          (λ t. handle_tcp_syn_recv d t pkt.tcp_hdr pkt.bytes (size_of d pkt) pkt.now)
          (cover.written p c at_q at_p is_q sound)
          (handle_tcp_syn_recv-Keeps d laws (record { tcp = s.tcp; connection = c }) pkt.tcp_hdr
            pkt.bytes (size_of d pkt) pkt.now e sound sane)
    dispatch_cases s p c pkt established e cover at_q at_p is_q sound sane =
        at_connection_cases s p c P
          (λ t. handle_tcp_establish d t pkt.tcp_hdr pkt.bytes (size_of d pkt))
          (cover.written p c at_q at_p is_q sound)
          (handle_tcp_establish-Keeps d laws (record { tcp = s.tcp; connection = c }) pkt.tcp_hdr
            pkt.bytes (size_of d pkt) e sound sane)
    dispatch_cases s p c pkt last_ack e cover at_q at_p is_q sound sane =
        cover.finished p c at_q at_p is_q e
    dispatch_cases s p c pkt syn_sent e cover at_q at_p is_q sound sane =
        at_connection_cases s p c P
          (λ t. handle_tcp_syn_sent d t pkt.tcp_hdr pkt.bytes (size_of d pkt))
          (cover.written p c at_q at_p is_q sound)
          (handle_tcp_syn_sent-Keeps d laws (record { tcp = s.tcp; connection = c }) pkt.tcp_hdr
            pkt.bytes (size_of d pkt) e sound sane)
    dispatch_cases s p c pkt fin_wait1 e cover at_q at_p is_q sound sane =
        at_connection_cases s p c P (λ t. handle_tcp_fin_wait1 d t pkt.tcp_hdr (size_of d pkt))
          (cover.written p c at_q at_p is_q sound)
          (handle_tcp_fin_wait1-Keeps d laws (record { tcp = s.tcp; connection = c }) pkt.tcp_hdr
            (size_of d pkt) e sound)
    dispatch_cases s p c pkt _ e cover at_q at_p is_q sound sane = absurd (rw e at sound.live)

    pub open_and_send_cases :
        (s : Core T) (p : ℕ) (c : Connection) (bytes : List ℕ) (size : ℕ)
        → has_flag c.tcp_hdr.tcp_flags syn_flag ≡ true
        → has_flag (clear_flag c.tcp_hdr.tcp_flags syn_flag) fin_flag ≡ false
        → IsSized bytes size
        → ((u : Core T)
            → u.tcp.rte_hash ≡ s.tcp.rte_hash
            → u.heap ≡ store s.heap p (some (counted d syn_flag (fill_headers d c size)))
            → P u)
        → Returns (open_and_send d s p c bytes size) P
    unfolding open_and_send
    open_and_send_cases s p c bytes size syn no_fin sized rule =
        let begin : Session T = record { tcp = s.tcp; connection = c } in
        let opened =
          λ (t : Session T). record s { tcp = t.tcp; heap = store s.heap p (some t.connection) } in
        bind-Returns (tcp_tx_packets d begin bytes size) (λ t. ok (opened t)) P
          (Returns-syn d laws begin bytes size (λ t. P (opened t)) sized syn no_fin
            (rule
              (opened
                (sent_as d laws begin bytes size (counted d syn_flag (fill_headers d c size))))
              refl refl))
