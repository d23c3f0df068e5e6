-- ===== src/Link/Sending.antt =====
-- What a connection of the table sends: a plain segment, or one with FIN.
use tcp_dpdk.Base.{
  ℕ, ◌+◌, ◌≡◌, ◌<◌, refl, ap, ◌∙◌, false, List, [], some, ok, ◌>>=◌, add32, u32_mod, take, Returns,
  arith,
}
use tcp_dpdk.Flags.{syn_flag, fin_flag, ack_flag, has_flag, set_flag}
use tcp_dpdk.Connection.{Connection, Quad, TcpState}
use tcp_dpdk.Dpdk.{Dpdk, IsDpdk}
use tcp_dpdk.Tcp.{Core}
use tcp_dpdk.Tx.{fill_headers, tcp_tx_packets}
use tcp_dpdk.Tx.Effects.{IsSized, tcp_tx_packets-ok, transmitted_plain, counted, transmitted_fin}
use tcp_dpdk.Handlers.{enter}
use tcp_dpdk.Rx.{write_back}
use tcp_dpdk.Invariant.Passive.{stored}
use tcp_dpdk.Link.{IsAmple}
use tcp_dpdk.Link.Ends.{IsAddressed, HasNumbers, HasEnd, SentBy}
use tcp_dpdk.Link.Packets.{burst-SentBy}

module _ {T : Type 0} (d : Dpdk T) (laws : IsDpdk d) (ample : IsAmple d) where
  -- A segment of a connection of the table, with neither SYN nor FIN.
  pub plain-SentBy :
      (s : Core T) (q : Quad) (p : ℕ) (r : Connection) (state : TcpState)
      (una snd rcv flags size n : ℕ) (bytes content : List ℕ)
      → d.hash_lookup_data s.tcp.rte_hash q ≡ some p
      → IsSized bytes size
      → IsAddressed d q r
      → HasNumbers d una snd rcv r
      → r.tcp_state ≡ state
      → r.tcp_hdr.tcp_flags ≡ flags
      → has_flag flags syn_flag ≡ false
      → has_flag flags fin_flag ≡ false
      → size ≡ n
      → take size bytes ≡ content
      → Returns
          (tcp_tx_packets d (record { tcp = s.tcp; connection = r }) bytes size >>= λ t.
            ok (write_back d s p t))
          (λ t. HasEnd d q state una snd rcv t × SentBy d s.tcp t.tcp q snd rcv flags n content)
  unfolding fill_headers
  plain-SentBy s q p r state una snd rcv flags size n bytes content entry sized addressed numbers
        is_in marks no_syn no_fin is_size is_content =
      rw
        (
          tcp_tx_packets-ok d laws (record { tcp = s.tcp; connection = r }) bytes size sized,
          transmitted_plain d r size (ap (λ f. has_flag f syn_flag) marks ∙ no_syn)
              (ap (λ f. has_flag f fin_flag) marks ∙ no_fin),
        )
        (
          record {
            place = p;
            connection = fill_headers d r size;
            entry = entry;
            at_p = stored d laws s.heap p _;
            is_in = is_in;
            addressed = addressed;
            numbers = numbers;
          },
          burst-SentBy d laws ample (record { tcp = s.tcp; connection = r }) q bytes content snd rcv
              flags size n sized.1 addressed numbers.1 numbers.2 marks is_size is_content,
        )

  -- A segment of a connection of the table, with FIN and ACK.
  pub fin-SentBy :
      (s : Core T) (q : Quad) (p : ℕ) (r : Connection) (state : TcpState) (una snd rcv size : ℕ)
      (bytes content : List ℕ)
      → d.hash_lookup_data s.tcp.rte_hash q ≡ some p
      → size ≡ 0
      → IsAddressed d q r
      → HasNumbers d una snd rcv r
      → r.tcp_hdr.tcp_flags ≡ set_flag fin_flag ack_flag
      → snd + 1 < u32_mod
      → Returns
          (tcp_tx_packets d (record { tcp = s.tcp; connection = r }) bytes size
            >>= (λ t. ok (enter state t))
            >>= λ t. ok (write_back d s p t))
          (λ t.
            HasEnd d q state una (snd + 1) rcv t
            × SentBy d s.tcp t.tcp q snd rcv (set_flag fin_flag ack_flag) 0 [])
  unfolding fill_headers has_flag set_flag
  fin-SentBy s q p r state una snd rcv size bytes content entry empty addressed numbers marks
        range =
      let sized : IsSized bytes size = (omega (arith, empty), omega (arith, empty)) in
      let behind : add32 r.send.nxt 1 ≡ snd + 1 =
        ap (λ x. add32 x 1) numbers.1 ∙ omega (arith, range) in
      rw
        (
          tcp_tx_packets-ok d laws (record { tcp = s.tcp; connection = r }) bytes size sized,
          transmitted_fin d r size (ap (λ f. has_flag f syn_flag) marks)
              (ap (λ f. has_flag f fin_flag) marks),
        )
        (
          record {
            place = p;
            connection = record (counted d fin_flag (fill_headers d r size)) { tcp_state = state };
            entry = entry;
            at_p = stored d laws s.heap p _;
            is_in = refl;
            addressed = addressed;
            numbers = (numbers.0, behind, numbers.2, numbers.3);
          },
          burst-SentBy d laws ample (record { tcp = s.tcp; connection = r }) q bytes [] snd rcv
              (set_flag fin_flag ack_flag) size 0 sized.1 addressed numbers.1 numbers.2 marks empty
              (ap (λ k. take k bytes) empty),
        )
