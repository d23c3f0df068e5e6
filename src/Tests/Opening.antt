-- ===== src/Tests/Opening.antt =====
-- A connection is opened and closed by a peer.
use tcp_dpdk.Base.{◌≡◌, true, ◌==◌, none, some, if◌then◌else◌, refl, [], ◌∷◌, arith, Returns}
use tcp_dpdk.Connection.{Connection, established}
use tcp_dpdk.Tcp.{Core}
use tcp_dpdk.Invariant.Closing.{IsClosed, rx_burst-IsClosed}
use tcp_dpdk.Flags.{fin_flag, has_flag}
use tcp_dpdk.Rx.{quad_of, rx_burst}
use tcp_dpdk.Invariant.Passive.{IsConnected, rx_burst-IsConnected}
use tcp_dpdk.Tests.Platform.{Table, platform, blank, platform-IsDpdk}
use tcp_dpdk.Tests.Traffic.{idle_core, syn, ack, fin, last}

rx_burst-IsConnected_example :
    Returns
      (rx_burst platform idle_core (syn ∷ ack ∷ []))
      (λ t. IsConnected platform platform-IsDpdk idle_core t syn 7)
rx_burst-IsConnected_example =
    rx_burst-IsConnected platform platform-IsDpdk idle_core syn ack 7 blank ((quad_of syn, 7) ∷ [])
      (record { mac = refl; ipv4 = refl; ip = refl; tcp_proto = refl })
      (record { mac = refl; ipv4 = refl; ip = refl; tcp_proto = refl }) refl refl refl refl refl
      refl (omega arith, omega arith) refl refl refl

-- Two bytes have come in behind the SYN.
abbrev talking : Connection
talking = record blank {
  q = quad_of fin;
  tcp_state = established;
  send = record blank.send { una = 0; nxt = 1 };
  recv = record blank.recv { nxt = 2; wnd = 64240 };
}

abbrev busy_core : Core Table
busy_core = record idle_core {
  tcp = record idle_core.tcp { rte_hash = (quad_of fin, 7) ∷ [] };
  heap = λ p. if p == 7 then some talking else none;
}

flagged : has_flag 0x11 fin_flag ≡ true
unfolding has_flag
flagged = refl

rx_burst-IsClosed_example :
    Returns
      (rx_burst platform busy_core (fin ∷ last ∷ []))
      (λ t. IsClosed platform platform-IsDpdk busy_core t fin 7 talking)
rx_burst-IsClosed_example =
    rx_burst-IsClosed platform platform-IsDpdk busy_core fin last 7 talking
      (record { mac = refl; ipv4 = refl; ip = refl; tcp_proto = refl })
      (record { mac = refl; ipv4 = refl; ip = refl; tcp_proto = refl }) refl refl refl refl
      (omega arith) (omega arith) refl flagged refl refl
