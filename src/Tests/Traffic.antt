-- ===== src/Tests/Traffic.antt =====
-- A core, and packets for it.
use tcp_dpdk.Base.{ℕ, ◌+◌, false, List, [], ◌∷◌, none, Outcome, ok, fault, length}
use tcp_dpdk.Tcp.{Core}
use tcp_dpdk.Rx.{Packet}
use tcp_dpdk.Tests.Platform.{Table, zero_ip, zero_tcp, swap_16, swap_32}

abbrev pub our_ip : ℕ
our_ip = 0x0100_a8c0

abbrev pub peer_ip : ℕ
peer_ip = 0x6f0b_a8c0

abbrev pub idle_core : Core Table
idle_core = record {
  tcp = record {
    nic = record { ip = our_ip; mac = 0xd612_065f_6180; dst_mac = 0x90eb_1b9f_36a0 };
    rte_hash = [];
    stats = record { connection_count = 0; first_connection = 0; last_connection = 0 };
    core_id = 1;
    queue_id = 0;
    rxn = 0;
    txn = 0;
    max_pkt_burst = 256;
    dp_quit = false;
    sent = [];
    raw_freed = [];
    mbuf_calls = 0;
    printed = [];
  };
  heap = λ p. none;
  freed = [];
}

-- A segment from the peer's port 37736 to our port 2000; the numbers are in host order.
abbrev pub segment : ℕ → ℕ → ℕ → ℕ → List ℕ → Packet
segment mbuf flags seq ackn bytes = record {
  mbuf = mbuf;
  d_addr = 0xd612_065f_6180;
  ether_type = swap_16 0x0800;
  ipv4_hdr = record zero_ip {
    total_length = swap_16 (40 + length bytes);
    next_proto_id = 6;
    src_addr = peer_ip;
    dst_addr = our_ip;
  };
  tcp_hdr = record zero_tcp {
    src_port = swap_16 37736;
    dst_port = swap_16 2000;
    sent_seq = swap_32 seq;
    recv_ack = swap_32 ackn;
    data_off = 0x50;
    tcp_flags = flags;
    rx_win = swap_16 64240;
  };
  bytes = bytes;
  padding = 0;
  now = 1000;
}

abbrev pub syn : Packet
syn = segment 1 0x02 0xffff_ffff 0 []

abbrev pub ack : Packet
ack = segment 2 0x10 0 1 []

abbrev pub push : Packet
push = segment 3 0x18 0 1 (b'h' ∷ b'i' ∷ [])

abbrev pub fin : Packet
fin = segment 4 0x11 2 1 []

abbrev pub last : Packet
last = segment 5 0x10 3 2 []

-- The result of a run that is known to have one.
abbrev pub result_or {ℓ} : {A : Type ℓ} → A → Outcome A → A
result_or a (ok b) = b
result_or a (fault e) = a
