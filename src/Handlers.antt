-- ===== src/Handlers.antt =====
-- The handlers of src/tcp/tcp_*.c, one for each state. Of the console output there are the data of
-- the peer; the parameters that a handler does not use are left out. `size` is the int by its bit
-- pattern; `now` is what `clock()` returns.
pub mod Printing
use tcp_dpdk.Base.{
  ℕ, ◌+◌, ◌%◌, Bool, false, not, List, [], ◌∷◌, ◌==◌, Option, none, some, add32, sub32, u64_mod,
  int_to_size, Outcome, ok, fault, null_pointer, overrun, panic, guard, leb, ltb, length, take,
  ◌++◌, ◌>>=◌, ◌>>◌, if◌then◌else◌,
}
use tcp_dpdk.Flags.{fin_flag, syn_flag, ack_flag, has_flag, set_flag}
use tcp_dpdk.Seq.{is_between_wrapped}
use tcp_dpdk.Segment.{segment_check}
use tcp_dpdk.Connection.{
  Connection, Quad, TcpHdr, Heap, TcpState, established, syn_recv, fin_wait2, close, close_wait,
  last_ack,
}
use tcp_dpdk.Dpdk.{Dpdk}
use tcp_dpdk.Tcp.{Tcp, Session, Core}
use tcp_dpdk.Tx.{tcp_tx_packets}

abbrev pub initial_window : ℕ
initial_window = 64240

-- A write through a pointer of the heap.
abbrev pub store : Heap → ℕ → Option Connection → Heap
store h p c r = if p == r then c else h r

-- `is_between_wrapped(una - 1, ackn, nxt + 1)`
unfoldable pub acks_sent : Connection → ℕ → Bool
acks_sent c ackn = is_between_wrapped (sub32 c.send.una 1) ackn (add32 c.send.nxt 1)

-- The connection counts as made.
unfoldable pub count_connection : {T : Type 0} → Tcp T → ℕ → Tcp T
count_connection tcp now =
    let timed =
      (if tcp.stats.first_connection == 0
        then record tcp.stats { first_connection = now }
        else record tcp.stats { last_connection = now }) in
    record tcp {
      stats = record timed { connection_count = (tcp.stats.connection_count + 1) % u64_mod };
    }

-- An acknowledgement of our SYN; any other segment is answered in the same way.
unfoldable pub take_syn_ack : Connection → ℕ → Connection
take_syn_ack c ackn =
    if acks_sent c ackn
    then record c { tcp_state = established; send = record c.send { una = add32 ackn 1 } }
    else c

-- The assignments before a SYN is sent again.
abbrev pub rearmed : Connection → Connection
rearmed c = record c {
  send = record c.send { nxt = sub32 c.send.nxt 1 };
  tcp_hdr = record c.tcp_hdr { tcp_flags = set_flag c.tcp_hdr.tcp_flags syn_flag };
}

-- The assignments before an answer: the state, `recv.nxt` and the flags.
abbrev pub answering : Connection → TcpState → ℕ → ℕ → Connection
answering c state nxt flags = record c {
  tcp_state = state;
  recv = record c.recv { nxt = nxt };
  tcp_hdr = record c.tcp_hdr { tcp_flags = flags };
}

-- The loop's `i < size`, with an int: no byte of a negative size.
abbrev pub printed_count : ℕ → ℕ
printed_count size = if ltb size 0x8000_0000 then size else 0

-- Each byte of the data, and a line feed.
unfoldable pub print_data : {T : Type 0} → Tcp T → List ℕ → ℕ → Outcome (Tcp T)
print_data tcp bytes size = do
  guard (leb (printed_count size) (length bytes)) overrun
  ok (record tcp { printed = tcp.printed ++ (take (printed_count size) bytes ++ 10 ∷ []) })

-- `_connection->tcpState = state`
abbrev pub enter : {T : Type 0} → TcpState → Session T → Session T
enter state t = record t { connection = record t.connection { tcp_state = state } }

module _ {T : Type 0} (d : Dpdk T) where
  abbrev pub seq_of : TcpHdr → ℕ
  seq_of hdr = d.be_to_cpu_32 hdr.sent_seq

  abbrev pub ackn_of : TcpHdr → ℕ
  ackn_of hdr = d.be_to_cpu_32 hdr.recv_ack

  -- The assignments of `handle_tcp_listen`, to memory that holds `garbage`.
  unfoldable pub init_listen : Connection → Quad → TcpHdr → Connection
  init_listen garbage q hdr = record garbage {
    q = q;
    tcp_state = syn_recv;
    send = record garbage.send {
      una = 0;
      nxt = 0;
      wnd = initial_window;
      up = false;
      wl1 = 0;
      wl2 = 0;
    };
    recv = record {
      irs = seq_of hdr;
      nxt = add32 (seq_of hdr) 1;
      wnd = d.be_to_cpu_16 hdr.rx_win;
      up = false;
    };
    ipv4_hdr = record garbage.ipv4_hdr { src_addr = q.dip; dst_addr = q.sip };
    tcp_hdr = record garbage.tcp_hdr {
      src_port = q.dport;
      dst_port = q.sport;
      sent_seq = 0;
      rx_win = d.cpu_to_be_16 initial_window;
      tcp_flags = set_flag syn_flag ack_flag;
    };
  }

  -- A new connection at address `p`, and its first segment.
  unfoldable pub open_and_send : Core T → ℕ → Connection → List ℕ → ℕ → Outcome (Core T)
  open_and_send s p c bytes size = do
    t ← tcp_tx_packets d (record { tcp = s.tcp; connection = c }) bytes size
    ok (record s { tcp = t.tcp; heap = store s.heap p (some t.connection) })

  unfoldable pub listen_at :
      Core T → Quad → TcpHdr → List ℕ → ℕ → Option (ℕ × Connection) → Outcome (Option ℕ × Core T)
  listen_at s q hdr bytes size none = fault null_pointer
  listen_at s q hdr bytes size (some (p, garbage)) = do
    s' ← open_and_send s p (init_listen garbage q hdr) bytes (int_to_size size)
    ok (some p, s')

  -- `none` is the NULL that is returned for what is no SYN.
  unfoldable pub handle_tcp_listen :
      Core T → Quad → TcpHdr → List ℕ → ℕ → Outcome (Option ℕ × Core T)
  handle_tcp_listen s q hdr bytes size =
      if not (hdr.tcp_flags == syn_flag)
      then ok (none, s)
      else listen_at s q hdr bytes size (d.malloc s.heap)

  -- The SYN again, after a segment that failed the check.
  unfoldable pub retransmit_syn : Session T → List ℕ → ℕ → Outcome (Session T)
  retransmit_syn s bytes size =
      tcp_tx_packets d (record s { connection = rearmed s.connection }) bytes (int_to_size size)

  unfoldable pub handle_tcp_syn_recv : Session T → TcpHdr → List ℕ → ℕ → ℕ → Outcome (Session T)
  handle_tcp_syn_recv s hdr bytes size now =
      if not (segment_check s.connection size (seq_of hdr))
      then (if has_flag hdr.tcp_flags syn_flag then retransmit_syn s bytes size else ok s)
      else if acks_sent s.connection (ackn_of hdr)
      then ok (record {
        tcp = count_connection s.tcp now;
        connection = record s.connection { tcp_state = established };
      })
      else ok s

  unfoldable pub reply : Session T → TcpState → ℕ → ℕ → List ℕ → ℕ → Outcome (Session T)
  reply s state nxt flags bytes size =
      tcp_tx_packets d (record s { connection = answering s.connection state nxt flags }) bytes size

  unfoldable pub handle_tcp_establish : Session T → TcpHdr → List ℕ → ℕ → Outcome (Session T)
  handle_tcp_establish s hdr bytes size =
      let seq = seq_of hdr in
      let c = s.connection in
      let acked = record s {
        connection = record c { send = record c.send { nxt = ackn_of hdr } };
      } in
      if not (segment_check c size seq)
      then ok s
      else if has_flag hdr.tcp_flags fin_flag
      then (do
        t ← reply s close_wait (add32 seq 1) (set_flag fin_flag ack_flag) bytes (int_to_size size)
        ok (enter last_ack t))
      else if size == 0
      then ok acked
      else (do
        tcp ← print_data s.tcp bytes size
        reply (record acked { tcp = tcp }) c.tcp_state (add32 seq size) ack_flag [] 0)

  unfoldable pub handle_tcp_last_ack : Session T → Session T
  handle_tcp_last_ack s = record {
    tcp = record s.tcp { rte_hash = d.hash_del_key s.tcp.rte_hash s.connection.q };
    connection = record s.connection { tcp_state = close };
  }

  unfoldable pub handle_tcp_syn_sent : Session T → TcpHdr → List ℕ → ℕ → Outcome (Session T)
  handle_tcp_syn_sent s hdr bytes size =
      let seq = seq_of hdr in
      let c = record s.connection { recv = record s.connection.recv { nxt = seq } } in
      let taken = take_syn_ack c (ackn_of hdr) in
      if segment_check c 0 seq
      then reply (record s { connection = taken }) taken.tcp_state (add32 seq 1) ack_flag bytes
          (int_to_size size)
      else ok (record s { connection = c })

  -- `rte_hash_del_key(_tcp->rteHash, &_connection->q)`
  abbrev pub forget : Session T → Session T
  forget s = record s {
    tcp = record s.tcp { rte_hash = d.hash_del_key s.tcp.rte_hash s.connection.q };
  }

  unfoldable pub handle_tcp_fin_wait1 : Session T → TcpHdr → ℕ → Outcome (Session T)
  handle_tcp_fin_wait1 s hdr size =
      if not (segment_check s.connection size (seq_of hdr))
      then ok s
      else if acks_sent s.connection (ackn_of hdr)
      then (do t ← reply s fin_wait2 (add32 (seq_of hdr) 1) ack_flag [] 0; ok (forget t))
      else ok s

  unfoldable pub handle_tcp_fin_wait2 : Session T → TcpHdr → List ℕ → ℕ → Outcome (Session T)
  handle_tcp_fin_wait2 s hdr bytes size =
      if not (segment_check s.connection size (seq_of hdr)) then ok s else (do
        t ← reply s s.connection.tcp_state (add32 (seq_of hdr) 1) ack_flag bytes (int_to_size size)
        ok (forget t))

  unfoldable pub handle_tcp_close_wait : Session T → Outcome (Session T)
  handle_tcp_close_wait s = fault panic
