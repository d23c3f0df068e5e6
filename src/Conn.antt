-- ===== src/Conn.antt =====
-- The control connection, src/config/conn.c: the lines of a client go to `msg_handle`, and what
-- that answers goes back. The system calls' results are input.
pub mod Lines
pub mod Bounds
pub mod Clients
pub mod Arrivals
pub mod Setup
use tcp_dpdk.Base.{
  ℕ, ◌+◌, ◌==◌, Bool, true, false, List, [], ◌∷◌, ◌++◌, Outcome, ok, overrun, guard, ltb, length,
  take, set, c_string, codes, ◌>>=◌, ◌>>◌, if◌then◌else◌,
}

-- `struct conn`; `msg_in` is the whole buffer of `msg_in_len_max + 1` bytes. `state` is what the
-- handler works on, `written` the bytes that were written and where to, and `writes` counts the
-- calls of `write`.
pub record Conn (A : Type 0) : Type 0 where
  pub welcome : List ℕ
  pub prompt : List ℕ
  pub msg_in : List ℕ
  pub buf_size : ℕ
  pub msg_in_len_max : ℕ
  pub msg_out_len_max : ℕ
  pub msg_in_len : ℕ
  pub fd_server : ℕ
  pub fd_client_group : ℕ
  pub state : A
  pub written : List (ℕ × List ℕ)
  pub writes : ℕ
  pub closed : List ℕ

-- What `read` returns: -1 with EAGAIN or EWOULDBLOCK, -1 with another error, or the bytes.
pub data Read : Type 0 where
  again failed : Read
  bytes : List ℕ → Read

-- What `accept4` returns: -1 with EAGAIN or EWOULDBLOCK, -1 with another error, or a descriptor.
pub data Accept : Type 0 where
  nobody refused : Accept
  client : ℕ → Accept

-- What `epoll_wait` returns: -1, 0, or an event: whether EPOLLIN is in it, whether EPOLLRDHUP,
-- EPOLLERR or EPOLLHUP is, and the descriptor.
pub data Wait : Type 0 where
  wait_failed no_event : Wait
  event : Bool → Bool → ℕ → Wait

module _ {A : Type 0} where
  abbrev pub reset : Conn A × Bool → Conn A × Bool
  reset (s, true) = (record s { msg_in_len = 0 }, true)
  reset (s, false) = (s, false)

  -- `conn->msg_in[conn->msg_in_len] = byte`
  abbrev pub put : Conn A → ℕ → Outcome (Conn A)
  put s byte = do
    guard (ltb s.msg_in_len (length s.msg_in)) overrun
    ok (record s { msg_in = set s.msg_in s.msg_in_len byte })

  -- The loop over the bytes; `false` is the -1 of a write that failed.
  abbrev pub unless_failed :
      (Conn A → Outcome (Conn A × Bool)) → Conn A × Bool → Outcome (Conn A × Bool)
  unless_failed f (s, true) = f s
  unless_failed f (s, false) = ok (s, false)

  abbrev pub close_fd : Conn A → ℕ → Conn A
  close_fd s fd = record s { closed = s.closed ++ fd ∷ [] }

  -- `removed` and `close_ok`: whether `epoll_ctl` and `close` succeed.
  unfoldable pub control_event_handle : Conn A → ℕ → Bool → Bool → Conn A × Bool
  control_event_handle s fd false close_ok = (s, false)
  control_event_handle s fd true close_ok = (close_fd s fd, close_ok)

  abbrev pub close_unless : ℕ → Conn A × Bool → Conn A × Bool
  close_unless fd (s, true) = (s, true)
  close_unless fd (s, false) = (close_fd s fd, false)

  -- Of the two handlers either failure makes the result -1.
  abbrev pub control_events : Conn A × Bool → Bool → ℕ → Bool → Bool → Conn A × Bool
  control_events (s, data_ok) false fd removed close_ok = (s, data_ok)
  control_events (s, true) true fd removed close_ok = control_event_handle s fd removed close_ok
  control_events (s, false) true fd removed close_ok =
      ((control_event_handle s fd removed close_ok).0, false)

  -- `write_ok` tells whether the n-th `write` succeeds.
  module _ (write_ok : ℕ → Bool) where
    -- `write`: the connection, and whether the call succeeded.
    abbrev pub write : Conn A → ℕ → List ℕ → Conn A × Bool
    write s fd text =
        if write_ok s.writes
        then (record s { written = s.written ++ (fd, text) ∷ []; writes = s.writes + 1 }, true)
        else (record s { writes = s.writes + 1 }, false)

    -- The answer, unless it is empty.
    abbrev pub answer : Conn A → ℕ → List ℕ → Conn A × Bool
    answer s fd [] = (s, true)
    answer s fd (c ∷ text) = write s fd (c ∷ text)

    abbrev pub greet : Conn A × Bool → ℕ → Conn A × Bool
    greet (s, false) fd = close_unless fd (s, false)
    greet (s, true) fd = close_unless fd (write s fd s.prompt)

    -- `added`: whether `epoll_ctl` succeeds.
    unfoldable pub conn_poll_for_conn : Conn A → Accept → Bool → Conn A × Bool
    conn_poll_for_conn s nobody added = (s, true)
    conn_poll_for_conn s refused added = (s, false)
    conn_poll_for_conn s (client fd) false = close_unless fd (s, false)
    conn_poll_for_conn s (client fd) true = greet (write s fd s.welcome) fd

    -- The handler gets its state and the message, and leaves a state and the string in `msg_out`.
    module _ (msg_handle : A → List ℕ → Outcome (A × List ℕ)) where
      unfoldable pub end_of_line : Conn A → ℕ → Outcome (Conn A × Bool)
      end_of_line s fd = do
        s' ← put s 0
        (state, out) ← msg_handle s'.state (c_string s'.msg_in)
        ok (reset (answer (record s' { state = state }) fd out))

      unfoldable pub handle_byte : Conn A → ℕ → ℕ → Outcome (Conn A × Bool)
      handle_byte s fd byte =
          if byte == b'\n'
          then end_of_line s fd
          else if ltb s.msg_in_len s.msg_in_len_max
          then (do s' ← put s byte; ok (record s' { msg_in_len = s.msg_in_len + 1 }, true))
          else ok (reset (write s fd (codes "Command too long.")))

      unfoldable pub handle_bytes : Conn A → ℕ → List ℕ → Outcome (Conn A × Bool)
      handle_bytes s fd [] = ok (s, true)
      handle_bytes s fd (byte ∷ more) =
          handle_byte s fd byte >>= unless_failed (λ s'. handle_bytes s' fd more)

      -- The result is the connection, and whether 0 is returned, not -1.
      unfoldable pub data_event_handle : Conn A → ℕ → Read → Outcome (Conn A × Bool)
      data_event_handle s fd again = ok (s, true)
      data_event_handle s fd failed = ok (s, false)
      data_event_handle s fd (bytes []) = ok (s, true)
      data_event_handle s fd (bytes (byte ∷ more)) = do
        r ← handle_bytes s fd (take s.buf_size (byte ∷ more))
        unless_failed (λ s'. ok (write s' fd s'.prompt)) r

      unfoldable pub conn_poll_for_msg :
          Conn A → Wait → Read → Bool → Bool → Outcome (Conn A × Bool)
      conn_poll_for_msg s wait_failed read removed close_ok = ok (s, false)
      conn_poll_for_msg s no_event read removed close_ok = ok (s, true)
      conn_poll_for_msg s (event true control fd) read removed close_ok = do
        r ← data_event_handle s fd read
        ok (control_events r control fd removed close_ok)
      conn_poll_for_msg s (event false control fd) read removed close_ok =
          ok (control_events (s, true) control fd removed close_ok)
