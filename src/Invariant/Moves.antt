-- ===== src/Invariant/Moves.antt =====
-- What one packet changes of the connections.
use tcp_dpdk.Base.{
  ℕ, ◌≡◌, ◌≢◌, refl, ◌∙◌, ap, ◌⊎◌, inl, inr, false, Option, none, some, Returns, arith,
}
use tcp_dpdk.Connection.{Connection, Quad, quad_eq, syn_recv, fin_wait1, fin_wait2, last_ack}
use tcp_dpdk.Dpdk.{Dpdk, IsDpdk}
use tcp_dpdk.Tcp.{Session, Core}
use tcp_dpdk.Handlers.{store, handle_tcp_last_ack}
use tcp_dpdk.Rx.{Packet, quad_of, write_back, register, add_key, finish_last_ack, rx_packet}
use tcp_dpdk.Invariant.{quad_eq_iff, IsSound, Keeps, IsWellFormed}
use tcp_dpdk.Invariant.Sessions.{RxMove}
use tcp_dpdk.Invariant.Cases.{IsSane, Supplies}
use tcp_dpdk.Invariant.Receive.{rx_packet_cases}

-- What a packet may do to the connection of its quad.
abbrev pub Own : Option Connection → Option Connection → Type 0
Own none none = Unit
Own none (some c) = c.tcp_state ≡ syn_recv
Own (some c) (some e) = RxMove c.tcp_state e.tcp_state × (e.tcp_state ≢ fin_wait2)
Own (some c) none = (c.tcp_state ≡ last_ack) ⊎ (c.tcp_state ≡ fin_wait1)

state-ne-fin_wait2 : (c : Connection) → IsSound c → c.tcp_state ≢ fin_wait2
state-ne-fin_wait2 c sound e = absurd (rw e at sound.live)

Own-transport : (a b x y : Option Connection) → a ≡ x → b ≡ y → Own x y → Own a b
Own-transport a b x y p q h = rw (p, q) h

Own-refl :
    (o : Option Connection) → ((c : Connection) → o ≡ some c → c.tcp_state ≢ fin_wait2) → Own o o
Own-refl none h = tt
Own-refl (some c) h = (inl refl, h c refl)

module _ {T : Type 0} (d : Dpdk T) where
  -- The connection that the table has for a quad.
  abbrev pub entry : Core T → Quad → Option Connection
  entry s k = elim (d.hash_lookup_data s.tcp.rte_hash k) [ none ↦ none | some p ↦ s.heap p ]

  -- Every other quad keeps its connection, field for field.
  pub record Moves (q : Quad) (s u : Core T) : Type 0 where
    pub others : (k : Quad) → quad_eq q k ≡ false → entry u k ≡ entry s k
    pub own : Own (entry s q) (entry u q)

  module _ (laws : IsDpdk d) (s : Core T) (q : Quad) (p : ℕ) (c : Connection) where
    other_entry :
        (t : Session T) (k : Quad) (o : Option ℕ)
        → d.hash_lookup_data s.tcp.rte_hash k ≡ o
        → IsWellFormed d s
        → s.heap p ≡ some c
        → c.q ≡ q
        → Keeps d RxMove (record { tcp = s.tcp; connection = c }) t
        → quad_eq q k ≡ false
        → entry (write_back d s p t) k ≡ entry s k
    other_entry t k none e wf at_p is_q keeps ne =
        ground (arith, keeps, laws.lookup-del s.tcp.rte_hash c.q k)
    other_entry t k (some r) e wf at_p is_q keeps ne =
        ground (arith, wf k r e, keeps, quad_eq_iff q k, laws.lookup-del s.tcp.rte_hash c.q k)

    write_back-Own :
        (t : Session T)
        → d.hash_lookup_data s.tcp.rte_hash q ≡ some p
        → s.heap p ≡ some c
        → c.q ≡ q
        → IsSound c
        → Keeps d RxMove (record { tcp = s.tcp; connection = c }) t
        → Own (entry s q) (entry (write_back d s p t) q)
    write_back-Own t at_q at_p is_q sound keeps =
        let before : entry s q ≡ some c = ground arith in
        elim keeps.table [
          | inl (same, sound_t) ↦
              let after : entry (write_back d s p t) q ≡ some t.connection = ground arith in
              Own-transport _ _ _ _ before after
                (keeps.moved, state-ne-fin_wait2 t.connection sound_t)
          | inr (deleted, state) ↦
              let after : entry (write_back d s p t) q ≡ none =
                ground (arith, quad_eq_iff q q, laws.lookup-del s.tcp.rte_hash c.q q) in
              Own-transport _ _ _ _ before after
                (ground (arith, keeps.moved, state-ne-fin_wait2 c sound))
        ]

    write_back-Moves :
        (t : Session T)
        → IsWellFormed d s
        → d.hash_lookup_data s.tcp.rte_hash q ≡ some p
        → s.heap p ≡ some c
        → c.q ≡ q
        → IsSound c
        → Keeps d RxMove (record { tcp = s.tcp; connection = c }) t
        → Moves q s (write_back d s p t)
    write_back-Moves t wf at_q at_p is_q sound keeps = record {
      others = λ k ne. other_entry t k _ refl wf at_p is_q keeps ne;
      own = write_back-Own t at_q at_p is_q sound keeps;
    }

  module _ (laws : IsDpdk d) (s : Core T) (q : Quad) where
    -- The table leads to no address that has no object.
    entry-store_fresh :
        (u : Core T) (p : ℕ) (o : Option Connection) (k : Quad) (r : Option ℕ)
        → d.hash_lookup_data s.tcp.rte_hash k ≡ r
        → IsWellFormed d s
        → s.heap p ≡ none
        → d.hash_lookup_data u.tcp.rte_hash k ≡ r
        → u.heap ≡ store s.heap p o
        → entry u k ≡ entry s k
    entry-store_fresh u p o k none e wf free e' heap = ground arith
    entry-store_fresh u p o k (some r) e wf free e' heap =
        let (c, at_r, _, _) = wf k r e in
        let after : u.heap r ≡ s.heap r = rw heap (ground arith) in ground arith

    lookup-add_key_ne :
        (t : T) (p : ℕ) (k : Quad) (o : Option T)
        → d.hash_add_key_data t q p ≡ o
        → quad_eq q k ≡ false
        → d.hash_lookup_data (add_key d t q p o) k ≡ d.hash_lookup_data t k
    lookup-add_key_ne t p k none e ne = refl
    lookup-add_key_ne t p k (some u) e ne = ground (arith, laws.lookup-add t u q k p e)

    lookup-add_key_self :
        (t : T) (p : ℕ) (o : Option T)
        → d.hash_add_key_data t q p ≡ o
        → (d.hash_lookup_data (add_key d t q p o) q ≡ some p)
          ⊎ (d.hash_lookup_data (add_key d t q p o) q ≡ d.hash_lookup_data t q)
    lookup-add_key_self t p none e = inr refl
    lookup-add_key_self t p (some u) e =
        inl (ground (arith, laws.lookup-add t u q q p e, quad_eq_iff q q))

    register-Moves :
        (u : Core T) (p : ℕ) (c : Connection)
        → IsWellFormed d s
        → d.hash_lookup_data s.tcp.rte_hash q ≡ none
        → s.heap p ≡ none
        → c.tcp_state ≡ syn_recv
        → u.tcp.rte_hash ≡ s.tcp.rte_hash
        → u.heap ≡ store s.heap p (some c)
        → Moves q s (register d q (some p) u)
    register-Moves u p c wf no_entry free state table heap = record {
      others = λ k ne.
          entry-store_fresh (register d q (some p) u) p (some c) k _ refl wf free
            (lookup-add_key_ne u.tcp.rte_hash p k _ refl ne
              ∙ ap (λ t. d.hash_lookup_data t k) table)
            heap;
      own = elim (lookup-add_key_self u.tcp.rte_hash p _ refl) [
        | inl added ↦
            let after : entry (register d q (some p) u) q ≡ some c = ground arith in
            Own-transport _ _ none (some c) (ground arith) after state
        | inr same ↦
            let after : entry (register d q (some p) u) q ≡ none = ground arith in
            Own-transport _ _ none none (ground arith) after tt
      ];
    }

    finished_other :
        (p : ℕ) (c : Connection) (k : Quad) (o : Option ℕ)
        → d.hash_lookup_data s.tcp.rte_hash k ≡ o
        → IsWellFormed d s
        → s.heap p ≡ some c
        → c.q ≡ q
        → quad_eq q k ≡ false
        → entry (finish_last_ack d s p c q) k ≡ entry s k
    unfolding finish_last_ack handle_tcp_last_ack
    finished_other p c k none e wf at_p is_q ne = ground (
      arith,
      laws.lookup-del (d.hash_del_key s.tcp.rte_hash c.q) q k,
      laws.lookup-del s.tcp.rte_hash c.q k,
    )
    finished_other p c k (some r) e wf at_p is_q ne = ground (
      arith,
      wf k r e,
      quad_eq_iff q k,
      laws.lookup-del (d.hash_del_key s.tcp.rte_hash c.q) q k,
      laws.lookup-del s.tcp.rte_hash c.q k,
    )

    finish_last_ack-Moves :
        (p : ℕ) (c : Connection)
        → IsWellFormed d s
        → d.hash_lookup_data s.tcp.rte_hash q ≡ some p
        → s.heap p ≡ some c
        → c.q ≡ q
        → c.tcp_state ≡ last_ack
        → Moves q s (finish_last_ack d s p c q)
    unfolding finish_last_ack handle_tcp_last_ack
    finish_last_ack-Moves p c wf at_q at_p is_q state = record {
      others = λ k ne. finished_other p c k _ refl wf at_p is_q ne;
      own =
          let after : entry (finish_last_ack d s p c q) q ≡ none =
            ground
              (arith, quad_eq_iff q q, laws.lookup-del (d.hash_del_key s.tcp.rte_hash c.q) q q) in
          Own-transport _ _ (some c) none (ground arith) after (inl state);
    }

    live_entry :
        (o : Option ℕ)
        → d.hash_lookup_data s.tcp.rte_hash q ≡ o
        → IsWellFormed d s
        → (c : Connection) → entry s q ≡ some c
        → c.tcp_state ≢ fin_wait2
    live_entry none e wf c found = ground arith
    live_entry (some p) e wf c found =
        let (c', at_p, _, sound) = wf q p e in
        let same : c' ≡ c = ground arith in rw same at (state-ne-fin_wait2 c' sound)

    Moves-refl : IsWellFormed d s → Moves q s s
    Moves-refl wf = record {
      others = λ k ne. refl;
      own = Own-refl (entry s q) (live_entry _ refl wf);
    }

  -- DPDK is taken to behave as documented. From a well-formed core with memory to spare, a packet
  -- whose IPv4 length covers its headers, and whose data lie in the buffer and are at most 100
  -- bytes, leaves the connection of every other quad as it was, and takes that of its own quad
  -- along the edges of the state machine: none to SYN_RECV, SYN_RECV or SYN_SENT to ESTABLISHED,
  -- ESTABLISHED to LAST_ACK, LAST_ACK or FIN_WAIT1 to none; or it leaves the state as it is.
  pub rx_packet-Moves :
      IsDpdk d
      → (s : Core T) (pkt : Packet) → IsWellFormed d s
      → Supplies d s.heap
      → IsSane d pkt
      → Returns (rx_packet d s pkt) (Moves (quad_of pkt) s)
  rx_packet-Moves laws s pkt wf =
      rx_packet_cases d laws (Moves (quad_of pkt) s) s pkt wf
        (record {
          ignored = Moves-refl laws s (quad_of pkt) wf;
          opened = λ u p c no_entry free _ state _ table heap.
              register-Moves laws s (quad_of pkt) u p c wf no_entry free state table heap;
          written = λ p c at_q at_p is_q sound t keeps.
              write_back-Moves laws s (quad_of pkt) p c t wf at_q at_p is_q sound keeps;
          finished = λ p c at_q at_p is_q state.
              finish_last_ack-Moves laws s (quad_of pkt) p c wf at_q at_p is_q state;
        })
        (λ u h. record { others = h.others; own = h.own })
