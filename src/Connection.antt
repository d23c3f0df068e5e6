-- ===== src/Connection.antt =====
-- headers/tcp/tcp.h: the structs of a connection. The DPDK headers `rte_ipv4_hdr` and
-- `rte_tcp_hdr` have the fields of the wire formats; multi-byte fields hold big-endian values.
use tcp_dpdk.Base.{ℕ, Bool, List, Option, ◌==◌, ◌&&◌}

pub data TcpState : Type 0 where
  established syn_sent syn_recv fin_wait1 fin_wait2 time_wait close close_wait last_ack : TcpState
  listen closing max_states : TcpState

-- The hash table compares all 16 bytes of a quad, the 4 bytes of padding among them; `padding`
-- is what they hold.
pub record Quad : Type 0 where
  pub sip : ℕ
  pub sport : ℕ
  pub dip : ℕ
  pub dport : ℕ
  pub padding : ℕ

abbrev pub quad_eq : Quad → Quad → Bool
quad_eq a b =
    a.sip == b.sip
    && a.sport == b.sport
    && a.dip == b.dip
    && a.dport == b.dport
    && a.padding == b.padding

pub record SendSequenceSpace : Type 0 where
  pub una : ℕ
  pub nxt : ℕ
  pub wnd : ℕ
  pub up : Bool
  pub wl1 : ℕ
  pub wl2 : ℕ
  pub iss : ℕ

pub record ReceiveSequenceSpace : Type 0 where
  pub nxt : ℕ
  pub wnd : ℕ
  pub up : Bool
  pub irs : ℕ

pub record Ipv4Hdr : Type 0 where
  pub version_ihl : ℕ
  pub type_of_service : ℕ
  pub total_length : ℕ
  pub packet_id : ℕ
  pub fragment_offset : ℕ
  pub time_to_live : ℕ
  pub next_proto_id : ℕ
  pub hdr_checksum : ℕ
  pub src_addr : ℕ
  pub dst_addr : ℕ

pub record TcpHdr : Type 0 where
  pub src_port : ℕ
  pub dst_port : ℕ
  pub sent_seq : ℕ
  pub recv_ack : ℕ
  pub data_off : ℕ
  pub tcp_flags : ℕ
  pub rx_win : ℕ
  pub cksum : ℕ
  pub tcp_urp : ℕ

pub record Connection : Type 0 where
  pub q : Quad
  pub tcp_state : TcpState
  pub send : SendSequenceSpace
  pub recv : ReceiveSequenceSpace
  pub ipv4_hdr : Ipv4Hdr
  pub tcp_hdr : TcpHdr
  pub payload : List ℕ

-- Memory from `rte_malloc`: the objects by address. An address with no object is not allocated,
-- or freed.
abbrev pub Heap : Type 0
Heap = ℕ → Option Connection
