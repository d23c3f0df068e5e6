-- ===== src/Tcp.antt =====
-- headers/tcp/tcp.h and headers/nic/nic.h: the state of one core, and what it sends.
use tcp_dpdk.Base.{ℕ, Bool, List}
use tcp_dpdk.Connection.{Ipv4Hdr, TcpHdr, Connection, Heap}

pub record Nic : Type 0 where
  pub ip : ℕ
  pub mac : ℕ
  pub dst_mac : ℕ

pub record TcpStatistics : Type 0 where
  pub connection_count : ℕ
  pub first_connection : ℕ
  pub last_connection : ℕ

-- A packet buffer as it is handed to `rte_eth_tx_burst`.
pub record Frame : Type 0 where
  pub s_addr : ℕ
  pub d_addr : ℕ
  pub ether_type : ℕ
  pub ipv4_hdr : Ipv4Hdr
  pub tcp_hdr : TcpHdr
  pub data_bytes : List ℕ
  pub data_len : ℕ

-- `struct tcp`; `sent` is what the core has handed to the driver, and `mbuf_calls` counts the
-- buffers it has asked for; `raw_freed` are the numbers of those that it gave back to the pool after
-- the driver had them; `printed` is what `print_data` has written to the console.
pub record Tcp (T : Type 0) : Type 0 where
  pub nic : Nic
  pub rte_hash : T
  pub stats : TcpStatistics
  pub core_id : ℕ
  pub queue_id : ℕ
  pub rxn : ℕ
  pub txn : ℕ
  pub max_pkt_burst : ℕ
  pub dp_quit : Bool
  pub sent : List Frame
  pub raw_freed : List ℕ
  pub mbuf_calls : ℕ
  pub printed : List ℕ

-- What a handler works on: the core, and the connection that `_connection` points to.
pub record Session (T : Type 0) : Type 0 where
  pub tcp : Tcp T
  pub connection : Connection

-- What a core works on: its own state, the memory, and the receive buffers it has given back.
pub record Core (T : Type 0) : Type 0 where
  pub tcp : Tcp T
  pub heap : Heap
  pub freed : List ℕ
