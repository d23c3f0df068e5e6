-- ===== src/Link/Ends.antt =====
-- The two ends of a connection: what a host has of it, what a frame shows of it, and what a packet
-- tells of it.
use tcp_dpdk.Base.{ℕ, ◌+◌, ◌≡◌, List, none, some}
use tcp_dpdk.Connection.{Connection, Quad, TcpState, Heap, established}
use tcp_dpdk.Dpdk.{Dpdk}
use tcp_dpdk.Tcp.{Nic, Frame, Tcp, Core}
use tcp_dpdk.Handlers.{initial_window, seq_of, ackn_of}
use tcp_dpdk.Rx.{Packet, size_of, quad_of}
use tcp_dpdk.Link.{AreHosts, flip, last}

module _ {T : Type 0} (d : Dpdk T) where
  -- Where a connection's segments go.
  abbrev pub IsAddressed : Quad → Connection → Type 0
  IsAddressed q c =
      (c.q ≡ q)
      × (c.ipv4_hdr.src_addr ≡ q.dip)
      × (c.ipv4_hdr.dst_addr ≡ q.sip)
      × (c.tcp_hdr.src_port ≡ q.dport)
      × (c.tcp_hdr.dst_port ≡ q.sport)
      × (c.tcp_hdr.rx_win ≡ d.cpu_to_be_16 initial_window)

  -- The numbers of a connection: the oldest one not acknowledged, the next one, the one expected.
  abbrev pub HasNumbers : ℕ → ℕ → ℕ → Connection → Type 0
  HasNumbers una snd rcv c =
      (c.send.una ≡ una) × (c.send.nxt ≡ snd) × (c.recv.nxt ≡ rcv) × (c.recv.wnd ≡ initial_window)

  -- A core has a connection for the quad in a state, with these numbers.
  pub record EndOf (q : Quad) (state : TcpState) (una snd rcv : ℕ) (tcp : Tcp T) (heap : Heap)
      : Type 0 where
    pub place : ℕ
    pub connection : Connection
    pub entry : d.hash_lookup_data tcp.rte_hash q ≡ some place
    pub at_p : heap place ≡ some connection
    pub is_in : connection.tcp_state ≡ state
    pub addressed : IsAddressed q connection
    pub numbers : HasNumbers una snd rcv connection

  abbrev pub HasEnd : Quad → TcpState → ℕ → ℕ → ℕ → Core T → Type 0
  HasEnd q state una snd rcv s = EndOf q state una snd rcv s.tcp s.heap

  -- The segment that a frame of the connection of `q` shows: its numbers, flags and data.
  pub record Shows (nic : Nic) (q : Quad) (snd rcv flags size : ℕ) (bytes : List ℕ) (f : Frame)
      : Type 0 where
    pub mac : f.d_addr ≡ nic.dst_mac
    pub ether_type : f.ether_type ≡ d.cpu_to_be_16 0x0800
    pub proto : f.ipv4_hdr.next_proto_id ≡ 6
    pub from : f.ipv4_hdr.src_addr ≡ q.dip
    pub to : f.ipv4_hdr.dst_addr ≡ q.sip
    pub src_port : f.tcp_hdr.src_port ≡ q.dport
    pub dst_port : f.tcp_hdr.dst_port ≡ q.sport
    pub length : f.ipv4_hdr.total_length ≡ d.cpu_to_be_16 (40 + size)
    pub data_off : f.tcp_hdr.data_off ≡ 80
    pub seqn : f.tcp_hdr.sent_seq ≡ d.cpu_to_be_32 snd
    pub ackn : f.tcp_hdr.recv_ack ≡ d.cpu_to_be_32 rcv
    pub marks : f.tcp_hdr.tcp_flags ≡ flags
    pub window : f.tcp_hdr.rx_win ≡ d.cpu_to_be_16 initial_window
    pub content : f.data_bytes ≡ bytes

  -- What the handlers read of a packet.
  pub record Reads (q : Quad) (seqn ackn flags size : ℕ) (bytes : List ℕ) (pkt : Packet)
      : Type 0 where
    pub quad : quad_of pkt ≡ q
    pub number : seq_of d pkt.tcp_hdr ≡ seqn
    pub acknowledged : ackn_of d pkt.tcp_hdr ≡ ackn
    pub marks : pkt.tcp_hdr.tcp_flags ≡ flags
    pub measure : size_of d pkt ≡ size
    pub window : d.be_to_cpu_16 pkt.tcp_hdr.rx_win ≡ initial_window
    pub content : pkt.bytes ≡ bytes

  -- The last frame of `sent` is a segment of the connection of `q`; the NIC is as it was,
  -- and `print_data` has written nothing.
  pub record LastShows (before after : Nic) (old new : List ℕ) (sent : List Frame) (q : Quad)
      (snd rcv flags size : ℕ) (bytes : List ℕ) : Type 0 where
    pub same_nic : after ≡ before
    pub same_log : new ≡ old
    pub frame : Frame
    pub is_last : last sent ≡ some frame
    pub shows : Shows before q snd rcv flags size bytes frame

  -- The NIC has not changed, and `print_data` has written nothing.
  abbrev pub IsQuiet : Tcp T → Tcp T → Type 0
  IsQuiet before after = (after.nic ≡ before.nic) × (after.printed ≡ before.printed)

  abbrev pub SentBy : Tcp T → Tcp T → Quad → ℕ → ℕ → ℕ → ℕ → List ℕ → Type 0
  SentBy before after q snd rcv flags size bytes =
      LastShows before.nic after.nic before.printed after.printed after.sent q snd rcv flags size
        bytes

  -- The memory has a connection of the quad.
  abbrev pub IsLeft : Quad → Heap → Type 0
  IsLeft q heap = (p : ℕ) × (c : Connection) × (heap p ≡ some c) × (c.q ≡ q)

  -- Room for a connection of the quad: memory, and a place in the table.
  pub record HasRoom (q : Quad) (s : Core T) : Type 0 where
    pub place : ℕ
    pub garbage : Connection
    pub table : T
    pub no_entry : d.hash_lookup_data s.tcp.rte_hash q ≡ none
    pub from : d.malloc s.heap ≡ some (place, garbage)
    pub added : d.hash_add_key_data s.tcp.rte_hash q place ≡ some table

  -- Both ends are established; `x` is the number that `a` sends next and `b` expects, `y` the
  -- other; `log_a` and `log_b` are what `print_data` has written.
  pub record InSync (q : Quad) (padding una_a una_b x y : ℕ) (log_a log_b : List ℕ)
      (r : Core T × Core T) : Type 0 where
    pub end_a : HasEnd q established una_a x y r.0
    pub end_b : HasEnd (flip q padding) established una_b y x r.1
    pub hosts : AreHosts q r.0.tcp.nic r.1.tcp.nic
    pub shown_a : r.0.tcp.printed ≡ log_a
    pub shown_b : r.1.tcp.printed ≡ log_b
