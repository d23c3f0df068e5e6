-- ===== src/Tx.antt =====
-- src/nic/nic.c and `tcp_tx_packets` of src/tcp/tcp.c: how a segment is sent.
pub mod Effects
pub mod Frames
use tcp_dpdk.Base.{
  ℕ, ◌+◌, ◌-◌, ◌*◌, ◌/◌, ◌%◌, Bool, true, false, List, [], ◌∷◌, ◌++◌, take, length, leb, ◌&&◌,
  add32, u16_mod, Outcome, ok, fault, overrun, guard, ◌>>=◌, ◌>>◌, if◌then◌else◌,
}
use tcp_dpdk.Flags.{fin_flag, syn_flag, has_flag, clear_flag}
use tcp_dpdk.Connection.{Connection, SendSequenceSpace, TcpHdr, Ipv4Hdr}
use tcp_dpdk.Dpdk.{Dpdk}
use tcp_dpdk.Tcp.{Tcp, Frame, Session}

-- sizeof(struct rte_ether_hdr), rte_ipv4_hdr, rte_tcp_hdr, and of `payload`
abbrev pub ether_hdr_size : ℕ
ether_hdr_size = 14

abbrev pub ipv4_hdr_size : ℕ
ipv4_hdr_size = 20

abbrev pub tcp_hdr_size : ℕ
tcp_hdr_size = 20

abbrev pub payload_size : ℕ
payload_size = 100

-- `((data_off) >> 4) << 2`
abbrev pub header_bytes : ℕ → ℕ
header_bytes data_off = data_off / 16 * 4

module _ {T : Type 0} (d : Dpdk T) where
  -- `rte_memcpy` of `n` bytes to offset `off` of a packet buffer
  abbrev copy_in : ℕ → ℕ → Outcome (Unit {0})
  copy_in off n = guard (leb (off + n) d.mbuf_room) overrun

  -- The frame that `send_p` builds.
  abbrev pub frame_of : Session T → List ℕ → ℕ → Frame
  frame_of s bytes size = record {
    s_addr = s.tcp.nic.mac;
    d_addr = s.tcp.nic.dst_mac;
    ether_type = d.cpu_to_be_16 0x0800;
    ipv4_hdr = s.connection.ipv4_hdr;
    tcp_hdr = s.connection.tcp_hdr;
    data_bytes = take size bytes;
    data_len = (ether_hdr_size + tcp_hdr_size + ipv4_hdr_size + size) % u16_mod;
  }

  -- From the copy of the headers on, for the buffer of number `pkt`. The last copy reads `size` bytes
  -- from `bytes`. The code ends with `rte_mbuf_raw_free(pkt)`, whether or not the driver has taken
  -- the buffer: that call is kept as an effect, and is no fault of the model.
  fill_and_burst : Session T → ℕ → List ℕ → ℕ → Outcome (Session T)
  fill_and_burst s pkt bytes size = do
    copy_in 0 ether_hdr_size
    copy_in ether_hdr_size ipv4_hdr_size
    copy_in (ether_hdr_size + ipv4_hdr_size) tcp_hdr_size
    guard (leb size (length bytes)) overrun
    copy_in (ether_hdr_size + ipv4_hdr_size + header_bytes s.connection.tcp_hdr.data_off) size
    let burst = record s { tcp = record s.tcp { sent = s.tcp.sent ++ frame_of s bytes size ∷ [] } }
    ok (record burst { tcp = record burst.tcp { raw_freed = burst.tcp.raw_freed ++ pkt ∷ [] } })

  -- With no free buffer nothing is sent.
  unfoldable pub send_p : Session T → List ℕ → ℕ → Outcome (Session T)
  unfolding fill_and_burst
  send_p s bytes size =
      let asked = record s { tcp = record s.tcp { mbuf_calls = s.tcp.mbuf_calls + 1 } } in
      if d.mbuf_raw_alloc s.tcp.mbuf_calls
      then fill_and_burst asked s.tcp.mbuf_calls bytes size
      else ok asked

  -- `uint16_t size`
  abbrev pub segment_size : ℕ → ℕ
  segment_size size = (tcp_hdr_size + ipv4_hdr_size + size) % u16_mod

  -- The headers of the segment, up to the checksums.
  unfoldable pub fill_headers : Connection → ℕ → Connection
  fill_headers c size =
      let ip = record c.ipv4_hdr {
        fragment_offset = d.cpu_to_be_16 0x4000;
        packet_id = d.cpu_to_be_16 ((d.be_to_cpu_16 c.ipv4_hdr.packet_id + 1) % u16_mod);
        time_to_live = 64;
        version_ihl = 0x45;
        next_proto_id = 6;
        total_length = d.cpu_to_be_16 (segment_size size);
        hdr_checksum = 0;
      } in
      let th = record c.tcp_hdr {
        sent_seq = d.cpu_to_be_32 c.send.nxt;
        recv_ack = d.cpu_to_be_32 c.recv.nxt;
        data_off = 5 * 16;
        cksum = 0;
      } in
      let ip_summed = record ip { hdr_checksum = d.ipv4_cksum ip } in
      record c {
        ipv4_hdr = ip_summed;
        tcp_hdr = record th { cksum = d.ipv4_udptcp_cksum ip_summed th c.payload };
      }

  -- A flag that takes a sequence number is counted and cleared.
  abbrev count_flag : ℕ → Connection → Connection
  count_flag f c =
      if has_flag c.tcp_hdr.tcp_flags f
      then record c {
        send = record c.send { nxt = add32 c.send.nxt 1 };
        tcp_hdr = record c.tcp_hdr { tcp_flags = clear_flag c.tcp_hdr.tcp_flags f };
      }
      else c

  unfoldable pub after_send : Connection → Connection
  after_send c = count_flag fin_flag (count_flag syn_flag c)

  -- The checksum reads the segment behind the IPv4 header out of the connection, where the TCP
  -- header and the payload lie: `segment_size size - 20` bytes, of which the struct has 120.
  unfoldable pub tcp_tx_packets : Session T → List ℕ → ℕ → Outcome (Session T)
  unfolding fill_headers send_p after_send
  tcp_tx_packets s bytes size = do
    guard (leb (segment_size size - ipv4_hdr_size) (tcp_hdr_size + payload_size)) overrun
    t ← send_p (record s { connection = fill_headers s.connection size }) bytes size
    ok (record t { connection = after_send t.connection })
