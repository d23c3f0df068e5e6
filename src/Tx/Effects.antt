-- ===== src/Tx/Effects.antt =====
-- What `tcp_tx_packets` does to the core and to the connection.
use tcp_dpdk.Base.{
  ℕ, ◌+◌, add32, ◌≤◌, ◌≡◌, true, false, List, [], ◌∷◌, ◌++◌, length, Returns, ok, if◌then◌else◌,
  arith,
}
use tcp_dpdk.Flags.{syn_flag, fin_flag, has_flag, clear_flag}
use tcp_dpdk.Connection.{Connection}
use tcp_dpdk.Dpdk.{Dpdk, IsDpdk}
use tcp_dpdk.Tcp.{Tcp, Session}
use tcp_dpdk.Tx.{frame_of, fill_headers, after_send, tcp_tx_packets}

-- The data can be sent: it is there, and the checksum stays within the connection.
abbrev pub IsSized : List ℕ → ℕ → Type 0
IsSized bytes size = (size ≤ length bytes) × (size ≤ 100)

module _ {T : Type 0} (d : Dpdk T) where
  -- The connection after a segment is sent.
  abbrev pub transmitted : Connection → ℕ → Connection
  transmitted c size = after_send d (fill_headers d c size)

  -- The core after it.
  abbrev pub burst : Session T → List ℕ → ℕ → Tcp T
  burst s bytes size =
      let filled = record s { connection = fill_headers d s.connection size } in
      record s.tcp {
        mbuf_calls = s.tcp.mbuf_calls + 1;
        sent =
            if d.mbuf_raw_alloc s.tcp.mbuf_calls
            then s.tcp.sent ++ frame_of d filled bytes size ∷ []
            else s.tcp.sent;
        raw_freed =
            if d.mbuf_raw_alloc s.tcp.mbuf_calls
            then s.tcp.raw_freed ++ s.tcp.mbuf_calls ∷ []
            else s.tcp.raw_freed;
      }

  -- Sized data are sent without a fault; the frame goes out if there is a buffer for it.
  pub tcp_tx_packets-ok :
      IsDpdk d
      → (s : Session T) (bytes : List ℕ) (size : ℕ) → IsSized bytes size
      → tcp_tx_packets d s bytes size
        ≡ ok (record { tcp = burst s bytes size; connection = transmitted s.connection size })
  unfolding tcp_tx_packets
  tcp_tx_packets-ok laws s bytes size sized = ground arith

  -- A segment with neither SYN nor FIN takes no sequence number.
  pub transmitted_plain :
      (c : Connection) (size : ℕ)
      → has_flag c.tcp_hdr.tcp_flags syn_flag ≡ false
      → has_flag c.tcp_hdr.tcp_flags fin_flag ≡ false
      → transmitted c size ≡ fill_headers d c size
  unfolding after_send fill_headers
  transmitted_plain c size no_syn no_fin = rw (no_syn, no_fin)

  -- A SYN takes one, and so does a FIN.
  abbrev pub counted : ℕ → Connection → Connection
  counted f c = record c {
    send = record c.send { nxt = add32 c.send.nxt 1 };
    tcp_hdr = record c.tcp_hdr { tcp_flags = clear_flag c.tcp_hdr.tcp_flags f };
  }

  pub transmitted_syn :
      (c : Connection) (size : ℕ)
      → has_flag c.tcp_hdr.tcp_flags syn_flag ≡ true
      → has_flag (clear_flag c.tcp_hdr.tcp_flags syn_flag) fin_flag ≡ false
      → transmitted c size ≡ counted syn_flag (fill_headers d c size)
  unfolding after_send fill_headers
  transmitted_syn c size syn no_fin = rw (syn, no_fin)

  pub transmitted_fin :
      (c : Connection) (size : ℕ)
      → has_flag c.tcp_hdr.tcp_flags syn_flag ≡ false
      → has_flag c.tcp_hdr.tcp_flags fin_flag ≡ true
      → transmitted c size ≡ counted fin_flag (fill_headers d c size)
  unfolding after_send fill_headers
  transmitted_fin c size no_syn fin = rw (no_syn, fin)

  module _ (laws : IsDpdk d) (s : Session T) (bytes : List ℕ) (size : ℕ) where
    -- The session after a segment whose connection is then `c`.
    abbrev pub sent_as : Connection → Session T
    sent_as c = record { tcp = burst s bytes size; connection = c }

    pub Returns-plain :
        (P : Session T → Type 0)
        → IsSized bytes size
        → has_flag s.connection.tcp_hdr.tcp_flags syn_flag ≡ false
        → has_flag s.connection.tcp_hdr.tcp_flags fin_flag ≡ false
        → P (sent_as (fill_headers d s.connection size))
        → Returns (tcp_tx_packets d s bytes size) P
    Returns-plain P sized no_syn no_fin h =
        rw
          (
            tcp_tx_packets-ok laws s bytes size sized,
            transmitted_plain s.connection size no_syn no_fin,
          )
          h

    pub Returns-syn :
        (P : Session T → Type 0)
        → IsSized bytes size
        → has_flag s.connection.tcp_hdr.tcp_flags syn_flag ≡ true
        → has_flag (clear_flag s.connection.tcp_hdr.tcp_flags syn_flag) fin_flag ≡ false
        → P (sent_as (counted syn_flag (fill_headers d s.connection size)))
        → Returns (tcp_tx_packets d s bytes size) P
    Returns-syn P sized syn no_fin h =
        rw (tcp_tx_packets-ok laws s bytes size sized, transmitted_syn s.connection size syn no_fin)
          h

    pub Returns-fin :
        (P : Session T → Type 0)
        → IsSized bytes size
        → has_flag s.connection.tcp_hdr.tcp_flags syn_flag ≡ false
        → has_flag s.connection.tcp_hdr.tcp_flags fin_flag ≡ true
        → P (sent_as (counted fin_flag (fill_headers d s.connection size)))
        → Returns (tcp_tx_packets d s bytes size) P
    Returns-fin P sized no_syn fin h =
        rw (tcp_tx_packets-ok laws s bytes size sized, transmitted_fin s.connection size no_syn fin)
          h
