-- ===== src/Link.antt =====
-- Two hosts that run this program, and a wire between them. The wire is no code of the program: it
-- hands over the last frame that a host has sent, and what else a packet has is input.
pub mod Ends
pub mod Packets
pub mod Sending
pub mod Opening
pub mod Handshake
pub mod Talking
pub mod Messages
pub mod Conversation
pub mod Closing
pub mod Session
use tcp_dpdk.Base.{
  ℕ, ◌+◌, ◌≡◌, ◌<◌, true, List, [], ◌∷◌, ◌++◌, Option, none, some, take, length, ◌≢◌, ◌≤◌, Outcome,
  ok, ◌>>=◌,
}
use tcp_dpdk.Connection.{Connection, Quad, TcpState, Heap, established}
use tcp_dpdk.Dpdk.{Dpdk}
use tcp_dpdk.Tcp.{Nic, Frame, Tcp, Core}
use tcp_dpdk.Handlers.{initial_window, seq_of, ackn_of}
use tcp_dpdk.Rx.{Packet, size_of, quad_of, rx_packet}
use tcp_dpdk.Active.{active_connect, active_send_data, active_close}

-- What is not on the wire: the receive buffer, what `clock()` returns, and what the stack of the
-- receive thread holds in the padding of `struct quad`, which no code sets.
pub record Arrival : Type 0 where
  pub mbuf : ℕ
  pub now : ℕ
  pub padding : ℕ

-- The packet of a frame.
abbrev pub carry : Arrival → Frame → Packet
carry i f = record {
  mbuf = i.mbuf;
  d_addr = f.d_addr;
  ether_type = f.ether_type;
  ipv4_hdr = f.ipv4_hdr;
  tcp_hdr = f.tcp_hdr;
  bytes = f.data_bytes;
  padding = i.padding;
  now = i.now;
}

abbrev pub last : List Frame → Option Frame
last [] = none
last (f ∷ []) = some f
last (f ∷ g ∷ fs) = last (g ∷ fs)

-- The same connection from the other side.
abbrev pub flip : Quad → ℕ → Quad
flip q padding = record {
  sip = q.dip;
  sport = q.dport;
  dip = q.sip;
  dport = q.sport;
  padding = padding;
}

-- Each host's frames are addressed to the other.
abbrev pub AreWired : Nic → Nic → Type 0
AreWired m n = (m.dst_mac ≡ n.mac) × (n.dst_mac ≡ m.mac)

-- The hosts' addresses are those of the quad, and their frames go to each other.
pub record AreHosts (q : Quad) (m n : Nic) : Type 0 where
  pub wired : AreWired m n
  pub here : m.ip ≡ q.dip
  pub there : n.ip ≡ q.sip

-- What is input to a command whose segment gets two more: the padding in the command's quad, on the
-- stack of the thread that calls it, and the arrivals of the three segments.
pub record Exchange : Type 0 where
  pub call : ℕ
  pub first : Arrival
  pub second : Arrival
  pub third : Arrival

-- Each lookup finds the padding bytes of the key: those of `q` on the host that calls, and `padding`
-- on the other one.
pub record IsKeyed (q : Quad) (padding : ℕ) (x : Exchange) : Type 0 where
  pub call : x.call ≡ q.padding
  pub first : x.first.padding ≡ padding
  pub second : x.second.padding ≡ q.padding
  pub third : x.third.padding ≡ padding

-- A message from either side, with the padding in the quad of the command, and with the arrivals of
-- its data and of their acknowledgement.
pub data Line : Type 0 where
  by_a : ℕ → Arrival → Arrival → List ℕ → Line
  by_b : ℕ → Arrival → Arrival → List ℕ → Line

abbrev pub bytes_of : Line → List ℕ
bytes_of (by_a p i j bytes) = bytes
bytes_of (by_b p i j bytes) = bytes

-- How many bytes each side says.
abbrev pub said_by_a : List Line → ℕ
said_by_a [] = 0
said_by_a (by_a p i j bytes ∷ lines) = length bytes + said_by_a lines
said_by_a (by_b p i j bytes ∷ lines) = said_by_a lines

abbrev pub said_by_b : List Line → ℕ
said_by_b [] = 0
said_by_b (by_a p i j bytes ∷ lines) = said_by_b lines
said_by_b (by_b p i j bytes ∷ lines) = length bytes + said_by_b lines

-- What each side says, line by line.
abbrev pub text_of_a : List Line → List ℕ
text_of_a [] = []
text_of_a (by_a p i j bytes ∷ lines) = bytes ++ 10 ∷ text_of_a lines
text_of_a (by_b p i j bytes ∷ lines) = text_of_a lines

abbrev pub text_of_b : List Line → List ℕ
text_of_b [] = []
text_of_b (by_a p i j bytes ∷ lines) = text_of_b lines
text_of_b (by_b p i j bytes ∷ lines) = bytes ++ 10 ∷ text_of_b lines

-- Each message has data, and `payload` has room for them.
abbrev pub AreMessages : List Line → Type 0
AreMessages [] = Unit
AreMessages (line ∷ lines) =
    (length (bytes_of line) ≢ 0) × (length (bytes_of line) ≤ 100) × AreMessages lines

-- The padding bytes at each command and at each arrival are those of the key.
abbrev pub AreKeyed : Quad → ℕ → List Line → Type 0
AreKeyed q padding [] = Unit
AreKeyed q padding (by_a p i j bytes ∷ lines) =
    (p ≡ q.padding) × (i.padding ≡ padding) × (j.padding ≡ q.padding) × AreKeyed q padding lines
AreKeyed q padding (by_b p i j bytes ∷ lines) =
    (p ≡ padding) × (i.padding ≡ q.padding) × (j.padding ≡ padding) × AreKeyed q padding lines

module _ {T : Type 0} (d : Dpdk T) where
  -- The documented behaviour: from and to big endian is the same exchange of bytes. And a buffer is
  -- always free.
  pub record IsAmple : Type 0 where
    pub ether_type : d.be_to_cpu_16 0x0800 ≡ d.cpu_to_be_16 0x0800
    pub free : (n : ℕ) → d.mbuf_raw_alloc n ≡ true

  -- The last frame of `from` reaches `to`.
  abbrev pub hand_over : Arrival → Core T → Core T → Outcome (Core T)
  hand_over i from to = elim (last from.tcp.sent) [
    | none ↦ ok to
    | some f ↦ rx_packet d to (carry i f)
  ]

  -- A command at the connection of a quad, with the padding that the quad has on the stack.
  abbrev pub on_entry : Core T → Quad → ℕ → (Core T → ℕ → Outcome (Core T)) → Outcome (Core T)
  on_entry s q padding call =
      elim (d.hash_lookup_data s.tcp.rte_hash (record q { padding = padding })) [
        | none ↦ ok s
        | some p ↦ call s p
      ]

  -- `q` is the quad of the connection as the host that acts sees it.
  module _ (q : Quad) where
    -- `a` connects; the SYN, its answer and the acknowledgement reach the other side.
    unfoldable pub open_link : Exchange → Core T → Core T → Outcome (Core T × Core T)
    open_link x a b = do
      a1 ← active_connect d a q.sip q.sport q.dport x.call
      b1 ← hand_over x.first a1 b
      a2 ← hand_over x.second b1 a1
      b2 ← hand_over x.third a2 b1
      ok (a2, b2)

    -- `a` sends; the data and the acknowledgement reach the other side.
    unfoldable pub say :
        ℕ → Arrival → Arrival → List ℕ → Core T → Core T → Outcome (Core T × Core T)
    say padding i j bytes a b = do
      a1 ← on_entry a q padding λ s p. active_send_data d s p bytes
      b1 ← hand_over i a1 b
      a2 ← hand_over j b1 a1
      ok (a2, b1)

    -- `a` closes; its FIN, the answer and the acknowledgement reach the other side.
    unfoldable pub close_link : Exchange → Core T → Core T → Outcome (Core T × Core T)
    close_link x a b = do
      a1 ← on_entry a q x.call λ s p. active_close d s p
      b1 ← hand_over x.first a1 b
      a2 ← hand_over x.second b1 a1
      b2 ← hand_over x.third a2 b1
      ok (a2, b2)

  -- The lines of a conversation, one after the other.
  unfoldable pub converse : Quad → List Line → Core T → Core T → Outcome (Core T × Core T)
  converse q [] a b = ok (a, b)
  converse q (by_a p i j bytes ∷ lines) a b = do r ← say q p i j bytes a b; converse q lines r.0 r.1
  converse q (by_b p i j bytes ∷ lines) a b = do
    r ← say (flip q p) p i j bytes b a
    converse q lines r.1 r.0

  -- `a` connects, the hosts talk, and `a` closes.
  unfoldable pub session :
      Quad → Exchange → List Line → Exchange → Core T → Core T → Outcome (Core T × Core T)
  session q x lines y a b = do
    r ← open_link q x a b
    t ← converse q lines r.0 r.1
    close_link q y t.0 t.1
