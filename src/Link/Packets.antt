-- ===== src/Link/Packets.antt =====
-- What a host reads off a frame of the other one.
use tcp_dpdk.Base.{
  subst, ℕ, ◌+◌, ◌%◌, ◌≡◌, ◌≤◌, ◌<◌, refl, ap, sym, ◌∙◌, List, [], ◌∷◌, ◌++◌, take, some, u16_mod,
  u32_mod, Returns, arith,
}
use tcp_dpdk.Connection.{Quad, TcpState, Heap}
use tcp_dpdk.Dpdk.{Dpdk, IsDpdk}
use tcp_dpdk.Tcp.{Nic, Frame, Tcp, Session, Core}
use tcp_dpdk.Tx.Effects.{burst}
use tcp_dpdk.Tx.{fill_headers, frame_of}
use tcp_dpdk.Handlers.{initial_window}
use tcp_dpdk.Rx.{Packet, quad_of, dispatch, dispatch_at, receive_at, receive_segment, rx_packet}
use tcp_dpdk.Invariant.Passive.{IsForUs, Returns-IsForUs}
use tcp_dpdk.Link.{AreHosts, Arrival, carry, last, flip, hand_over, IsAmple}
use tcp_dpdk.Link.Ends.{IsAddressed, HasEnd, Shows, Reads, SentBy}

pub last-append : (fs : List Frame) (f : Frame) → last (fs ++ f ∷ []) ≡ some f
last-append [] f = refl
last-append (g ∷ []) f = refl
last-append (g ∷ h ∷ fs) f = last-append (h ∷ fs) f

pub AreHosts-same :
    (q : Quad) {m n m' n' : Nic} → m' ≡ m → n' ≡ n → AreHosts q m n → AreHosts q m' n'
AreHosts-same q {m} {n} {m'} {n'} p r hosts =
    subst (λ x. AreHosts q x n') (sym p) (subst (λ x. AreHosts q m x) (sym r) hosts)

module _ {T : Type 0} (d : Dpdk T) (laws : IsDpdk d) where
  -- The frame that a session sends, under other names of what it shows.
  frame_of-Shows :
      (s : Session T) (q : Quad) (bytes content : List ℕ) (snd rcv flags size n : ℕ)
      → size ≤ 100
      → IsAddressed d q s.connection
      → s.connection.send.nxt ≡ snd
      → s.connection.recv.nxt ≡ rcv
      → s.connection.tcp_hdr.tcp_flags ≡ flags
      → size ≡ n
      → take size bytes ≡ content
      → Shows d s.tcp.nic q snd rcv flags n content
          (frame_of d (record s { connection = fill_headers d s.connection size }) bytes size)
  unfolding fill_headers
  frame_of-Shows s q bytes content snd rcv flags size n short
        (own, from, to, src_port, dst_port, offers) is_snd is_rcv are_flags is_size is_content =
      let whole : (40 + size) % u16_mod ≡ 40 + n = omega (arith, short, is_size) in
      record {
        mac = refl;
        ether_type = refl;
        proto = refl;
        from = from;
        to = to;
        src_port = src_port;
        dst_port = dst_port;
        length = ap d.cpu_to_be_16 whole;
        data_off = refl;
        seqn = ap d.cpu_to_be_32 is_snd;
        ackn = ap d.cpu_to_be_32 is_rcv;
        marks = are_flags;
        window = offers;
        content = is_content;
      }

  module _ (ample : IsAmple d) (m n : Nic) (wired : m.dst_mac ≡ n.mac) (q : Quad) (f : Frame)
      (snd rcv flags size : ℕ) (bytes : List ℕ) (shows : Shows d m q snd rcv flags size bytes f)
      (i : Arrival) where
    pub carry-IsForUs : (tcp : Tcp T) → tcp.nic ≡ n → n.ip ≡ q.sip → IsForUs d tcp (carry i f)
    carry-IsForUs tcp same ip = record {
      mac = shows.mac ∙ wired ∙ ap (λ x. x.mac) (sym same);
      ipv4 = shows.ether_type ∙ sym ample.ether_type;
      ip = ap (λ x. x.ip) same ∙ ip ∙ sym shows.to;
      tcp_proto = shows.proto;
    }

    pub carry-Reads :
        snd < u32_mod
        → rcv < u32_mod
        → size ≤ 100
        → Reads d (flip q i.padding) snd rcv flags size bytes (carry i f)
    carry-Reads snd_range rcv_range short = record {
      quad = rw (shows.from, shows.to, shows.src_port, shows.dst_port) refl;
      number = ap d.be_to_cpu_32 shows.seqn ∙ laws.be_to_cpu_32-cpu_to_be_32 snd snd_range;
      acknowledged = ap d.be_to_cpu_32 shows.ackn ∙ laws.be_to_cpu_32-cpu_to_be_32 rcv rcv_range;
      marks = shows.marks;
      measure =
          rw
            (
              shows.length,
              shows.data_off,
              laws.be_to_cpu_16-cpu_to_be_16 (40 + size) (omega (arith, short)),
            )
            (omega (arith, short));
      window =
          ap d.be_to_cpu_16 shows.window
          ∙ laws.be_to_cpu_16-cpu_to_be_16 initial_window (omega arith);
      content = shows.content;
    }

  -- What a session that is addressed sends.
  pub burst-SentBy :
      IsAmple d
      → (s : Session T) (q : Quad) (bytes content : List ℕ) (snd rcv flags size n : ℕ) → size ≤ 100
      → IsAddressed d q s.connection
      → s.connection.send.nxt ≡ snd
      → s.connection.recv.nxt ≡ rcv
      → s.connection.tcp_hdr.tcp_flags ≡ flags
      → size ≡ n
      → take size bytes ≡ content
      → SentBy d s.tcp (burst d s bytes size) q snd rcv flags n content
  burst-SentBy ample s q bytes content snd rcv flags size n short addressed is_snd is_rcv are_flags
        is_size is_content =
      record {
        same_nic = refl;
        same_log = refl;
        frame = frame_of d (record s { connection = fill_headers d s.connection size }) bytes size;
        is_last = rw (ample.free s.tcp.mbuf_calls) (last-append s.tcp.sent _);
        shows =
            frame_of-Shows s q bytes content snd rcv flags size n short addressed is_snd is_rcv
              are_flags is_size is_content;
      }

  -- The dispatch of a packet for a connection of the table.
  pub receive_segment-dispatch :
      (s : Core T) (pkt : Packet) (q : Quad) (state : TcpState) (una snd rcv : ℕ)
      → (h : HasEnd d q state una snd rcv s) → quad_of pkt ≡ q
      → receive_segment d s pkt ≡ dispatch d state s h.place h.connection pkt
  unfolding receive_segment receive_at dispatch_at
  receive_segment-dispatch s pkt q state una snd rcv h is_q =
      let found : d.hash_lookup_data s.tcp.rte_hash (quad_of pkt) ≡ some h.place =
        ap (d.hash_lookup_data s.tcp.rte_hash) is_q ∙ h.entry in
      rw (found, h.at_p) (ap (λ st. dispatch d st s h.place h.connection pkt) h.is_in)

  -- The padding of the key, and so the key.
  pub keyed_lookup :
      (q : Quad) (padding : ℕ)
      → padding ≡ q.padding
      → (t : T) → d.hash_lookup_data t (record q { padding = padding }) ≡ d.hash_lookup_data t q
  keyed_lookup q padding keyed t = ap (λ x. d.hash_lookup_data t (record q { padding = x })) keyed

  -- A frame that reaches its host is received.
  pub hand_over-Returns :
      (P : Tcp T → Heap → Type 0)
      → IsAmple d
      → (from : Core T) (to : Core T) (before : Tcp T) (q : Quad) (snd rcv flags size padding : ℕ)
        (bytes : List ℕ) (i : Arrival)
      → i.padding ≡ padding
      → SentBy d before from.tcp q snd rcv flags size bytes
      → before.nic.dst_mac ≡ to.tcp.nic.mac
      → to.tcp.nic.ip ≡ q.sip
      → snd < u32_mod
      → rcv < u32_mod
      → size ≤ 100
      → ((pkt : Packet)
          → Reads d (flip q padding) snd rcv flags size bytes pkt
          → Returns (receive_segment d to pkt) (λ u. P u.tcp u.heap))
      → Returns (hand_over d i from to) (λ u. P u.tcp u.heap)
  unfolding rx_packet
  hand_over-Returns P ample from to before q snd rcv flags size padding bytes i keyed sent wired ip
        snd_range rcv_range short handle =
      let pkt = carry i sent.frame in
      let ours =
        carry-IsForUs ample before.nic to.tcp.nic wired q sent.frame snd rcv flags size bytes
          sent.shows i to.tcp refl ip in
      let reads =
        subst (λ x. Reads d (flip q x) snd rcv flags size bytes pkt) keyed
          (carry-Reads ample before.nic to.tcp.nic wired q sent.frame snd rcv flags size bytes
            sent.shows i snd_range rcv_range short) in
      rw (sent.is_last, hand_over) (Returns-IsForUs d to pkt P ours (handle pkt reads))
