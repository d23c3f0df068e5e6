-- ===== src/Main/Exit.antt =====
-- The command "exit", src/cli/cli.c, in the loop of `main`.
use tcp_dpdk.Base.{
  ℕ, inl, inr, Bool-cases, ◌≤◌, ◌≡◌, refl, ap, sym, subst, Bool, true, false, List, [], ◌∷◌, ok,
  Returns, codes, take_all, Returns-if, bind-Within, arith, if◌then◌else◌, ◌∙◌,
}
use tcp_dpdk.Dpdk.{Dpdk}
use tcp_dpdk.Tcp.{Core}
use tcp_dpdk.Cli.{Control, cli_process, process_tokens, command, quit_all}
use tcp_dpdk.Parser.{parse_tokenize_string, collect}
use tcp_dpdk.Conn.{
  Conn, Read, Wait, event, bytes, unless_failed, write, control_events, control_event_handle,
  handle_bytes, data_event_handle, conn_poll_for_conn, conn_poll_for_msg,
}
use tcp_dpdk.Conn.Bounds.{IsBounded}
use tcp_dpdk.Conn.Arrivals.{conn_poll_for_conn-IsKept}
use tcp_dpdk.Conn.Lines.{handle_bytes-line}
use tcp_dpdk.Main.{Turn, World, msg_handle, main_turn}

if-true : {A : Type 0} (b : Bool) (x y : A) → b ≡ true → (if b then x else y) ≡ x
if-true true x y e = refl
if-true false x y e = absurd (ground (arith, e))

-- Core by core, in order: the second list has the cores of the first, told to quit.
abbrev pub AreTold : {T : Type 0} → List (Core T) → List (Core T) → Type 0
AreTold [] [] = Unit
AreTold (s ∷ ss) (t ∷ ts) = (t ≡ record s { tcp = record s.tcp { dp_quit = true } }) × AreTold ss ts
AreTold _ _ = ⊥

quit_all-AreTold : {T : Type 0} (d : Dpdk T) (ss : List (Core T)) → AreTold ss (quit_all d ss)
quit_all-AreTold d [] = tt
quit_all-AreTold d (s ∷ ss) = (refl, quit_all-AreTold d ss)

module _ {T : Type 0} (d : Dpdk T) (padding : ℕ) (write_ok : ℕ → Bool) where
  -- The handler's state behind the command.
  abbrev quitting : Control T → Control T
  quitting s = record s { out = []; tcp_list = quit_all d s.tcp_list; cp_quit = true }

  msg_handle-exit : (s : Control T) → msg_handle d padding s (codes "exit") ≡ ok (quitting s, [])
  unfolding cli_process process_tokens command parse_tokenize_string collect
  msg_handle-exit s = refl

  -- The state is that of `s` behind the command.
  abbrev Quits : Control T → Conn (Control T) × Bool → Type 0
  Quits s r = r.0.state ≡ quitting s

  prompt-Quits :
      (s : Control T) (fd : ℕ) (r : World d × Bool)
      → Quits s r
      → Returns (unless_failed (λ u. ok (write write_ok u fd u.prompt)) r) (Quits s)
  prompt-Quits s fd (u, false) quits = quits
  prompt-Quits s fd (u, true) quits = elim (Bool-cases (write_ok u.writes)) [
    | inl done ↦ rw done quits
    | inr broken ↦ rw broken quits
  ]

  control_events-Quits :
      (s : Control T) (r : World d × Bool) (control : Bool) (fd : ℕ) (removed close_ok : Bool)
      → Quits s r
      → Quits s (control_events r control fd removed close_ok)
  unfolding control_event_handle
  control_events-Quits s (u, b) false fd removed close_ok quits = quits
  control_events-Quits s (u, true) true fd true close_ok quits = quits
  control_events-Quits s (u, true) true fd false close_ok quits = quits
  control_events-Quits s (u, false) true fd true close_ok quits = quits
  control_events-Quits s (u, false) true fd false close_ok quits = quits

  handle_bytes-exit :
      (w : World d) (fd : ℕ)
      → IsBounded w
      → w.msg_in_len ≡ 0
      → 4 ≤ w.msg_in_len_max
      → Returns (handle_bytes write_ok (msg_handle d padding) w fd (codes "exit\n")) (Quits w.state)
  unfolding handle_bytes
  handle_bytes-exit w fd bounded start room =
      let (b, size, same) =
        handle_bytes-line write_ok (msg_handle d padding) w fd (codes "exit") [] bounded start
          (omega arith) room in
      rw (same, msg_handle-exit w.state) refl

  data_event_handle-exit :
      (w : World d) (fd : ℕ)
      → IsBounded w
      → w.msg_in_len ≡ 0
      → 4 ≤ w.msg_in_len_max
      → 5 ≤ w.buf_size
      → Returns
          (data_event_handle write_ok (msg_handle d padding) w fd (bytes (codes "exit\n")))
          (Quits w.state)
  unfolding data_event_handle
  data_event_handle-exit w fd bounded start room reads =
      rw (take_all w.buf_size (codes "exit\n") reads) (
        bind-Within (λ e. ⊥) (handle_bytes write_ok (msg_handle d padding) w fd (codes "exit\n"))
          (unless_failed (λ u. ok (write write_ok u fd u.prompt))) (Quits w.state) (Quits w.state)
          (handle_bytes-exit w fd bounded start room) (prompt-Quits w.state fd))

  conn_poll_for_msg-exit :
      (w : World d) (wait : Wait) (read : Read) (removed close_ok control : Bool) (fd : ℕ)
      → IsBounded w
      → w.msg_in_len ≡ 0
      → 4 ≤ w.msg_in_len_max
      → 5 ≤ w.buf_size
      → wait ≡ event true control fd
      → read ≡ bytes (codes "exit\n")
      → Returns
          (conn_poll_for_msg write_ok (msg_handle d padding) w wait read removed close_ok)
          (Quits w.state)
  unfolding conn_poll_for_msg
  conn_poll_for_msg-exit w wait read removed close_ok control fd bounded start room reads waits
        sent =
      rw (waits, sent)
        (bind-Within (λ e. ⊥)
          (data_event_handle write_ok (msg_handle d padding) w fd (bytes (codes "exit\n")))
          (λ r. ok (control_events r control fd removed close_ok)) (Quits w.state) (Quits w.state)
          (data_event_handle-exit w fd bounded start room reads)
          (λ r. control_events-Quits w.state r control fd removed close_ok))

  quits_ends :
      (u : World d) (later : Turn)
      → u.state.cp_quit ≡ true
      → main_turn d padding write_ok u later ≡ ok u
  unfolding main_turn
  quits_ends u later quit = if-true u.state.cp_quit _ _ quit

  -- A client that is at the start of a line sends "exit": the turn of the loop returns, the cores
  -- are those from before, in order and each told to quit, and no later turn does anything, which
  -- is the end of the loop. The buffers are as large as the command at least.
  pub main_turn-exit :
      (w : World d) (t : Turn) (control : Bool) (fd : ℕ)
      → IsBounded w
      → w.msg_in_len ≡ 0
      → 4 ≤ w.msg_in_len_max
      → 5 ≤ w.buf_size
      → w.state.cp_quit ≡ false
      → t.wait ≡ event true control fd
      → t.read ≡ bytes (codes "exit\n")
      → Returns (main_turn d padding write_ok w t) (λ u.
        AreTold w.state.tcp_list u.state.tcp_list
        × ((later : Turn) → main_turn d padding write_ok u later ≡ ok u))
  unfolding main_turn
  main_turn-exit w t control fd bounded start room reads runs waits sent =
      let polled = (conn_poll_for_conn write_ok w t.accept t.added).0 in
      let kept = conn_poll_for_conn-IsKept write_ok w t.accept t.added bounded in
      Returns-if w.state.cp_quit (ok w) _ Ended (λ quit. absurd (ground (arith, runs, quit)))
        (λ e.
          bind-Within (λ e. ⊥)
            (conn_poll_for_msg write_ok (msg_handle d padding) polled t.wait t.read t.removed
              t.close_ok)
            (λ r. ok r.0) (Quits polled.state) Ended
            (conn_poll_for_msg-exit polled t.wait t.read t.removed t.close_ok control fd
              kept.bounded (kept.used ∙ start) (omega (arith, kept.room, room))
              (omega (arith, kept.reads, reads)) waits sent)
            (λ r quits. (
              subst (AreTold w.state.tcp_list)
                  (sym (ap (λ s. s.tcp_list) quits ∙ ap (λ s. quit_all d s.tcp_list) kept.state))
                  (quit_all-AreTold d w.state.tcp_list),
              λ later. quits_ends r.0 later (ap (λ s. s.cp_quit) quits),
            )))
    where
      Ended : World d → Type 0
      Ended u =
          AreTold w.state.tcp_list u.state.tcp_list
          × ((later : Turn) → main_turn d padding write_ok u later ≡ ok u)
