-- ===== src/Invariant.antt =====
-- The invariant of a core: what holds of its table and of the memory between two calls.
pub mod Sessions
pub mod Cases
pub mod Receive
pub mod Calls
pub mod Commands
pub mod Moves
pub mod Handshake
pub mod Passive
pub mod Closing
pub mod FinWait
pub mod Data
pub mod Reach
use tcp_dpdk.Base.{
  ℕ, ◌+◌, ◌≤◌, ◌<◌, ◌≡◌, refl, sym, ◌∙◌, ◌⊎◌, inl, inr, ◌↔◌, Bool, true, false, List, Option, none,
  some, length, u16_mod, u32_mod, arith, if◌then◌else◌, Bool-cases, Option-cases, ==_iff, ◌==◌,
  subst, ap,
}
use tcp_dpdk.Connection.{
  Connection, Quad, quad_eq, Heap, TcpState, established, syn_sent, syn_recv, fin_wait1, fin_wait2,
  last_ack,
}
use tcp_dpdk.Dpdk.{Dpdk, IsDpdk}
use tcp_dpdk.Tcp.{Tcp, Session, Core}
use tcp_dpdk.Handlers.{store}
use tcp_dpdk.Rx.{write_back, add_key, register}

pub quad_eq_iff : (a b : Quad) → (quad_eq a b ≡ true) ↔ (a ≡ b)
quad_eq_iff a b = ground arith

-- What is left of the flags of a segment once its SYN is sent: ACK, and PSH after data.
abbrev pub IsFlags : ℕ → Type 0
IsFlags flags = (flags ≡ 0x10) ⊎ (flags ≡ 0x18)

-- A connection of the table is in one of five states. Until the handshake is done, the SYN is
-- all that it has sent.
abbrev pub StateInv : TcpState → Connection → Type 0
StateInv established c = Unit
StateInv syn_sent c = (c.send.una ≡ 0) × (c.send.nxt ≡ 1)
StateInv syn_recv c = (c.send.una ≡ 0) × (c.send.nxt ≡ 1) × (IsFlags c.tcp_hdr.tcp_flags)
StateInv fin_wait1 c = Unit
StateInv last_ack c = Unit
StateInv _ c = ⊥

-- The fields are in the range of their C types.
pub record IsSound (c : Connection) : Type 0 where
  pub live : StateInv c.tcp_state c
  pub una_range : c.send.una < u32_mod
  pub nxt_range : c.send.nxt < u32_mod
  pub expected_range : c.recv.nxt < u32_mod
  pub window_range : c.recv.wnd < u16_mod
  pub payload_room : length c.payload ≡ 100

module _ {T : Type 0} (d : Dpdk T) where
  -- The table leads from `q` to an object of the heap, which is the connection of `q`.
  abbrev pub Holds : Heap → Quad → ℕ → Type 0
  Holds h q p = (c : Connection) × (h p ≡ some c) × (c.q ≡ q) × IsSound c

  abbrev pub IsWellFormed : Core T → Type 0
  IsWellFormed s =
      (q : Quad) (p : ℕ) → d.hash_lookup_data s.tcp.rte_hash q ≡ some p → Holds s.heap q p

  -- What a handler promises about its connection: it stays the connection of its quad, its state
  -- moves as `E` says, and either it is sound and as it was in the table, or its key is deleted.
  pub record Keeps (E : TcpState → TcpState → Type 0) (s t : Session T) : Type 0 where
    pub same_quad : t.connection.q ≡ s.connection.q
    pub moved : E s.connection.tcp_state t.connection.tcp_state
    pub table :
        ((t.tcp.rte_hash ≡ s.tcp.rte_hash) × IsSound t.connection)
        ⊎ ((t.tcp.rte_hash ≡ d.hash_del_key s.tcp.rte_hash s.connection.q)
            × (t.connection.tcp_state ≡ fin_wait2))

  -- A write through the pointer of another quad does not touch the entry of `k`.
  pub Holds-store :
      (h : Heap) (q k : Quad) (p r : ℕ) (c : Connection) (o : Option Connection)
      → h p ≡ some c
      → c.q ≡ q
      → quad_eq q k ≡ false
      → Holds h k r
      → Holds (store h p o) k r
  Holds-store h q k p r c o at_p is_q ne (c', at_r, is_k, sound) =
      (c', ground (arith, quad_eq_iff q k), is_k, sound)

  module _ (laws : IsDpdk d) (s : Core T) (q : Quad) (p : ℕ) (c : Connection) where
    -- Where an entry of the table after a handler comes from.
    abbrev From : Core T → Quad → ℕ → Type 0
    From u k r = d.hash_lookup_data u.tcp.rte_hash k ≡ some r → Holds u.heap k r

    same_entry :
        (E : TcpState → TcpState → Type 0) (t : Session T) (k : Quad) (r : ℕ)
        → d.hash_lookup_data s.tcp.rte_hash q ≡ some p
        → c.q ≡ q
        → Keeps E (record { tcp = s.tcp; connection = c }) t
        → quad_eq q k ≡ true
        → From (write_back d s p t) k r
    same_entry E t k r at_q is_q keeps eq found = elim keeps.table [
      | inl (e, sound) ↦ (
        t.connection,
        ground (arith, quad_eq_iff q k),
        ground (arith, quad_eq_iff q k, keeps.same_quad),
        sound,
      )
      | inr (e, _) ↦ absurd (ground (arith, quad_eq_iff q k, laws.lookup-del s.tcp.rte_hash c.q k))
    ]

    other_entry :
        (E : TcpState → TcpState → Type 0) (t : Session T) (k : Quad) (r : ℕ)
        → IsWellFormed s
        → s.heap p ≡ some c
        → c.q ≡ q
        → Keeps E (record { tcp = s.tcp; connection = c }) t
        → quad_eq q k ≡ false
        → From (write_back d s p t) k r
    other_entry E t k r wf at_p is_q keeps ne found =
        Holds-store s.heap q k p r c (some t.connection) at_p is_q ne
          (wf k r (ground (arith, keeps, laws.lookup-del s.tcp.rte_hash c.q k)))

    -- A handler that keeps its promise leaves the core well-formed.
    pub write_back-IsWellFormed :
        (E : TcpState → TcpState → Type 0) (t : Session T)
        → IsWellFormed s
        → d.hash_lookup_data s.tcp.rte_hash q ≡ some p
        → s.heap p ≡ some c
        → c.q ≡ q
        → Keeps E (record { tcp = s.tcp; connection = c }) t
        → IsWellFormed (write_back d s p t)
    write_back-IsWellFormed E t wf at_q at_p is_q keeps k r = elim (Bool-cases (quad_eq q k)) [
      | inl eq ↦ same_entry E t k r at_q is_q keeps eq
      | inr ne ↦ other_entry E t k r wf at_p is_q keeps ne
    ]

  Holds-fresh :
      (h : Heap) (k : Quad) (p r : ℕ) (o : Option Connection)
      → h p ≡ none
      → Holds h k r
      → Holds (store h p o) k r
  Holds-fresh h k p r o free (c, at_r, is_k, sound) = (c, ground arith, is_k, sound)

  -- What the table finds after a key is added, or refused.
  lookup-add_key :
      IsDpdk d
      → (t : T) (q k : Quad) (p r : ℕ) (o : Option T) → d.hash_add_key_data t q p ≡ o
      → d.hash_lookup_data (add_key d t q p o) k ≡ some r
      → ((q ≡ k) × (p ≡ r)) ⊎ (d.hash_lookup_data t k ≡ some r)
  lookup-add_key laws t q k p r none e found = inr found
  lookup-add_key laws t q k p r (some u) e found = elim (Bool-cases (quad_eq q k)) [
    | inl eq ↦ inl (ground (arith, quad_eq_iff q k), ground (arith, laws.lookup-add t u q k p e))
    | inr ne ↦ inr (ground (arith, laws.lookup-add t u q k p e))
  ]

  -- A new connection at a free address leaves the core well-formed, whether or not the table
  -- takes its key.
  pub register-IsWellFormed :
      IsDpdk d
      → (s u : Core T) (q : Quad) (p : ℕ) (c : Connection) → IsWellFormed s
      → s.heap p ≡ none
      → c.q ≡ q
      → IsSound c
      → u.tcp.rte_hash ≡ s.tcp.rte_hash
      → u.heap ≡ store s.heap p (some c)
      → IsWellFormed (register d q (some p) u)
  register-IsWellFormed laws s u q p c wf free is_q sound table heap k r found =
      elim (lookup-add_key laws u.tcp.rte_hash q k p r _ refl found) [
        | inl (q_k, p_r) ↦ (c, ground arith, is_q ∙ q_k, sound)
        | inr old ↦ rw heap (Holds-fresh s.heap k p r (some c) free (wf k r (rw (← table) old)))
      ]
