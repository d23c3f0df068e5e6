-- ===== src/Listing.antt =====
-- `dump_connection` and `dump_hashtable` of src/tcp/tcp.c: what they print.
pub mod Safety
use tcp_dpdk.Base.{
  ℕ, ◌/◌, ◌%◌, ◌^◌, List, [], ◌∷◌, ◌++◌, Option, none, some, Outcome, ok, fault, dangling, ◌>>=◌,
  codes, decimal,
}
use tcp_dpdk.Connection.{
  Connection, Quad, Heap, TcpState, established, syn_sent, syn_recv, fin_wait1, fin_wait2,
  time_wait, close, close_wait, last_ack, listen, closing, max_states,
}
use tcp_dpdk.Dpdk.{Dpdk}
use tcp_dpdk.Tcp.{Core}

-- `TCP_STATE_string`
abbrev pub state_name : TcpState → List ℕ
state_name established = codes "TCP_ESTABLISHED"
state_name syn_sent = codes "TCP_SYN_SENT"
state_name syn_recv = codes "TCP_SYN_RECV"
state_name fin_wait1 = codes "TCP_FIN_WAIT1"
state_name fin_wait2 = codes "TCP_FIN_WAIT2"
state_name time_wait = codes "TCP_TIME_WAIT"
state_name close = codes "TCP_CLOSE"
state_name close_wait = codes "TCP_CLOSE_WAIT"
state_name last_ack = codes "TCP_LAST_ACK"
state_name listen = codes "TCP_LISTEN"
state_name closing = codes "TCP_CLOSING"
state_name max_states = codes "TCP_MAX_STATES"

-- `printf(IPv4_BYTES_FMT, IPv4_BYTES(addr))`
abbrev pub ipv4_bytes : ℕ → List ℕ
ipv4_bytes addr =
    decimal (addr / 2 ^ 24 % 256)
    ++ b'.'
      ∷ (decimal (addr / 2 ^ 16 % 256)
          ++ b'.' ∷ (decimal (addr / 2 ^ 8 % 256) ++ b'.' ∷ decimal (addr % 256)))

module _ {T : Type 0} (d : Dpdk T) where
  unfoldable pub dump_connection : Connection → List ℕ
  dump_connection c =
      codes "connection src_ip src_port dst_ip dst_port\n"
      ++ (ipv4_bytes (d.be_to_cpu_32 c.q.sip)
          ++ b' '
            ∷ (decimal (d.be_to_cpu_16 c.q.sport)
                ++ b' '
                  ∷ (ipv4_bytes (d.be_to_cpu_32 c.q.dip)
                      ++ b' '
                        ∷ (decimal (d.be_to_cpu_16 c.q.dport)
                            ++ b'\n'
                              ∷ (codes "State: " ++ (state_name c.tcp_state ++ b'\n' ∷ []))))))

  -- The object at an address is read.
  unfoldable pub dump_at : Option Connection → Outcome (List ℕ)
  dump_at none = fault dangling
  dump_at (some c) = ok (dump_connection c)

  -- The loop over the entries that are left.
  unfoldable pub dump_entries : Heap → List (Quad × ℕ) → Outcome (List ℕ)
  dump_entries h [] = ok []
  dump_entries h (e ∷ es) = do text ← dump_at (h e.1); more ← dump_entries h es; ok (text ++ more)

  unfoldable pub dump_hashtable : Core T → Outcome (List ℕ)
  dump_hashtable s = dump_entries s.heap (d.hash_iterate s.tcp.rte_hash)

  -- The loop over the cores of `dump`.
  unfoldable pub dump_cores : List (Core T) → Outcome (List ℕ)
  dump_cores [] = ok []
  dump_cores (s ∷ ss) = do text ← dump_hashtable s; more ← dump_cores ss; ok (text ++ more)
