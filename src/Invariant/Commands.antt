-- ===== src/Invariant/Commands.antt =====
-- The calls that the command line makes, and the invariant of a core.
use tcp_dpdk.Base.{
  ℕ, ◌≤◌, ◌≡◌, ◌⊎◌, refl, inl, inr, List, [], Option, none, some, ok, Returns, bind-Returns, OrNull,
  Returns-OrNull, Option-cases, arith, length, drop, length-append, length-drop, leb_iff,
}
use tcp_dpdk.Flags.{has_flag, clear_flag, set_flag, syn_flag}
use tcp_dpdk.Connection.{Connection, Quad, TcpState, established, syn_recv, fin_wait1}
use tcp_dpdk.Dpdk.{Dpdk, IsDpdk}
use tcp_dpdk.Tcp.{Session, Core}
use tcp_dpdk.Tx.{tcp_tx_packets, fill_headers}
use tcp_dpdk.Tx.Effects.{Returns-plain, Returns-fin, counted}
use tcp_dpdk.Handlers.{open_and_send, enter}
use tcp_dpdk.Rx.{register}
use tcp_dpdk.Active.{
  init_connect, closing, loaded, connect_at, connect_unless, connect_quad, active_connect,
  close_session, active_close, send_session, active_send_data,
}
use tcp_dpdk.Invariant.{
  StateInv, IsSound, Keeps, IsWellFormed, write_back-IsWellFormed, register-IsWellFormed,
}
use tcp_dpdk.Invariant.Sessions.{fill_headers-IsSound}
use tcp_dpdk.Invariant.Cases.{open_and_send_cases, at_connection_cases}

-- How a command moves the state of its connection.
abbrev CommandMove : TcpState → TcpState → Type 0
CommandMove a b = (a ≡ b) ⊎ (b ≡ fin_wait1)

loaded-StateInv :
    (state : TcpState) (c : Connection) (bytes : List ℕ)
    → StateInv state c
    → StateInv state (loaded c bytes)
unfolding set_flag
loaded-StateInv established c bytes h = tt
loaded-StateInv syn_recv c bytes h = (h.0, h.1, inr refl)
loaded-StateInv _ c bytes h = h

loaded-IsSound :
    (c : Connection) (bytes : List ℕ) → IsSound c → length bytes ≤ 100 → IsSound (loaded c bytes)
loaded-IsSound c bytes sound short = record {
  live = loaded-StateInv c.tcp_state c bytes sound.live;
  una_range = sound.una_range;
  nxt_range = sound.nxt_range;
  expected_range = sound.expected_range;
  window_range = sound.window_range;
  payload_room = omega (
    arith,
    length-append bytes (drop (length bytes) c.payload),
    length-drop (length bytes) c.payload,
    sound.payload_room,
  );
}

module _ {T : Type 0} (d : Dpdk T) (laws : IsDpdk d) where
  init_connect-IsSound :
      (garbage : Connection) (q : Quad)
      → length garbage.payload ≡ 100
      → IsSound (counted d syn_flag (fill_headers d (init_connect d garbage q) 0))
  unfolding init_connect fill_headers clear_flag
  init_connect-IsSound garbage q room = ground arith

  connect_unless-IsWellFormed :
      (s : Core T) (q : Quad) (o : Option ℕ)
      → IsWellFormed d s
      → OrNull (connect_unless d s q o) (IsWellFormed d)
  unfolding connect_unless connect_at init_connect fill_headers has_flag clear_flag
  connect_unless-IsWellFormed s q none wf = elim (Option-cases (d.malloc s.heap)) [
    | inl no_memory ↦ rw (no_memory, connect_unless, connect_at) tt
    | inr ((p, garbage), from) ↦
        let c = init_connect d garbage q in
        let opened =
          open_and_send_cases d laws (λ u. IsWellFormed d (register d q (some p) u)) s p c [] 0 refl
            refl (omega arith)
            (λ u table heap.
              register-IsWellFormed d laws s u q p (counted d syn_flag (fill_headers d c 0)) wf
                (laws.malloc_fresh s.heap p garbage from) refl
                (init_connect-IsSound garbage q (laws.malloc_size s.heap p garbage from)) table
                heap) in
        rw from (
          Returns-OrNull _ (IsWellFormed d) (
            bind-Returns (open_and_send d s p c [] 0) (λ u. ok (register d q (some p) u))
              (IsWellFormed d) opened))
  ]
  connect_unless-IsWellFormed s q (some p) wf = wf

  pub active_connect-IsWellFormed :
      (s : Core T) (dip dport sport padding : ℕ)
      → IsWellFormed d s
      → OrNull (active_connect d s dip dport sport padding) (IsWellFormed d)
  unfolding active_connect
  active_connect-IsWellFormed s dip dport sport padding =
      connect_unless-IsWellFormed s (connect_quad d s dip dport sport padding) _

  close_session-Keeps :
      (s : Session T) → IsSound s.connection → Returns (close_session d s) (Keeps d CommandMove s)
  unfolding close_session fill_headers has_flag set_flag
  close_session-Keeps s sound =
      let begin : Session T = record s { connection = closing s.connection } in
      bind-Returns (tcp_tx_packets d begin [] 0) (λ t. ok (enter fin_wait1 t))
        (Keeps d CommandMove s)
        (Returns-fin d laws begin [] 0 (λ t. Keeps d CommandMove s (enter fin_wait1 t))
          (omega arith) refl refl
          (record { same_quad = refl; moved = inr refl; table = inl (refl, ground arith) }))

  -- A close of a connection that the table has.
  pub active_close-IsWellFormed :
      (s : Core T) (q : Quad) (p : ℕ)
      → IsWellFormed d s
      → d.hash_lookup_data s.tcp.rte_hash q ≡ some p
      → Returns (active_close d s p) (IsWellFormed d)
  unfolding active_close
  active_close-IsWellFormed s q p wf at_q =
      let (c, at_p, is_q, sound) = wf q p at_q in
      rw at_p (
        at_connection_cases d s p c (IsWellFormed d) (close_session d)
          (λ t keeps. write_back-IsWellFormed d laws s q p c CommandMove t wf at_q at_p is_q keeps)
          (close_session-Keeps (record { tcp = s.tcp; connection = c }) sound))

  send_session-Keeps :
      (s : Session T) (bytes : List ℕ)
      → IsSound s.connection
      → length bytes ≤ 100
      → Returns (send_session d bytes s) (Keeps d CommandMove s)
  unfolding send_session fill_headers has_flag set_flag
  send_session-Keeps s bytes sound short = rw ((leb_iff (length bytes) 100).1 short) (
      Returns-plain d laws (record s { connection = loaded s.connection bytes }) bytes
        (length bytes) (Keeps d CommandMove s) (omega arith) refl refl
        (record {
          same_quad = refl;
          moved = inl refl;
          table = inl (
            refl,
            fill_headers-IsSound d (loaded s.connection bytes) (length bytes)
                (loaded-IsSound s.connection bytes sound short),
          );
        }))

  -- At most 100 bytes for a connection that the table has.
  pub active_send_data-IsWellFormed :
      (s : Core T) (q : Quad) (p : ℕ) (bytes : List ℕ)
      → IsWellFormed d s
      → d.hash_lookup_data s.tcp.rte_hash q ≡ some p
      → length bytes ≤ 100
      → Returns (active_send_data d s p bytes) (IsWellFormed d)
  unfolding active_send_data
  active_send_data-IsWellFormed s q p bytes wf at_q short =
      let (c, at_p, is_q, sound) = wf q p at_q in
      rw at_p (
        at_connection_cases d s p c (IsWellFormed d) (send_session d bytes)
          (λ t keeps. write_back-IsWellFormed d laws s q p c CommandMove t wf at_q at_p is_q keeps)
          (send_session-Keeps (record { tcp = s.tcp; connection = c }) bytes sound short))
