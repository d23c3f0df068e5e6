-- ===== src/Conn/Bounds.antt =====
-- The message buffer of the control connection.
use tcp_dpdk.Base.{
  ℕ, ◌+◌, ◌≤◌, ◌≡◌, inl, inr, Bool, true, false, List, [], ◌∷◌, Outcome, ok, Fault, Within,
  bind-Within_last, Bool-cases, length, set, take, c_string, ltb, ltb_iff, ◌==◌, arith, codes,
  length-set, if◌then◌else◌,
}
use tcp_dpdk.Conn.{
  Conn, Read, again, failed, bytes, Wait, wait_failed, no_event, event, write, reset, answer,
  end_of_line, handle_byte, handle_bytes, unless_failed, data_event_handle, control_event_handle,
  control_events, conn_poll_for_msg,
}

-- There is room for the message and its NUL, in a buffer of the size that `conn_init` asks for.
pub record IsBounded {A : Type 0} (s : Conn A) : Type 0 where
  pub size : length s.msg_in ≡ s.msg_in_len_max + 1
  pub used : s.msg_in_len ≤ s.msg_in_len_max

module _ {A : Type 0} (write_ok : ℕ → Bool) (msg_handle : A → List ℕ → Outcome (A × List ℕ)) where
  -- The faults that the handler may end with, and what it keeps true of its state.
  module _ (F : Fault → Type 0) (I : A → Type 0)
      (handled : (a : A) (line : List ℕ) → I a → Within F (msg_handle a line) (λ r. I r.0)) where
    abbrev Good : Conn A × Bool → Type 0
    Good r = IsBounded r.0 × I r.0.state

    set-IsBounded :
        (s : Conn A) (byte : ℕ) (a : A)
        → IsBounded s
        → IsBounded (record s { msg_in = set s.msg_in s.msg_in_len byte; state = a })
    set-IsBounded s byte a bounded = record {
      size = omega (arith, bounded.size, length-set s.msg_in s.msg_in_len byte);
      used = bounded.used;
    }

    has_room : (s : Conn A) → IsBounded s → ltb s.msg_in_len (length s.msg_in) ≡ true
    has_room s bounded =
        (ltb_iff s.msg_in_len (length s.msg_in)).1 (omega (arith, bounded.size, bounded.used))

    unless_failed-Good :
        (f : Conn A → Outcome (Conn A × Bool))
        → ((s : Conn A) → Good (s, true) → Within F (f s) Good)
        → (r : Conn A × Bool) → Good r
        → Within F (unless_failed f r) Good
    unless_failed-Good f h (s, true) good = h s good
    unless_failed-Good f h (s, false) good = good

    reset-Good : (r : Conn A × Bool) → Good r → Good (reset r)
    reset-Good (s, true) good = (record { size = good.0.size; used = omega arith }, good.1)
    reset-Good (s, false) good = good

    write-Good :
        (s : Conn A) (fd : ℕ) (text : List ℕ) → Good (s, true) → Good (write write_ok s fd text)
    write-Good s fd text good = elim (Bool-cases (write_ok s.writes)) [
      | inl done ↦ rw done (record { size = good.0.size; used = good.0.used }, good.1)
      | inr broken ↦ rw broken (record { size = good.0.size; used = good.0.used }, good.1)
    ]

    answer-Good :
        (s : Conn A) (fd : ℕ) (out : List ℕ) → Good (s, true) → Good (answer write_ok s fd out)
    answer-Good s fd [] good = good
    answer-Good s fd (c ∷ out) good = write-Good s fd (c ∷ out) good

    end_of_line-Good :
        (s : Conn A) (fd : ℕ)
        → Good (s, true)
        → Within F (end_of_line write_ok msg_handle s fd) Good
    unfolding end_of_line
    end_of_line-Good s fd good = rw (has_room s good.0) (
        (bind-Within_last F (msg_handle s.state (c_string (set s.msg_in s.msg_in_len 0))) _
          (λ r. I r.0) Good
          (λ r kept.
            reset-Good
              (answer write_ok (record s { msg_in = set s.msg_in s.msg_in_len 0; state = r.0 }) fd
                r.1)
              (answer-Good (record s { msg_in = set s.msg_in s.msg_in_len 0; state = r.0 }) fd r.1
                (set-IsBounded s 0 r.0 good.0, kept)))
          (handled s.state _ good.1)))

    handle_byte-Good :
        (s : Conn A) (fd byte : ℕ)
        → Good (s, true)
        → Within F (handle_byte write_ok msg_handle s fd byte) Good
    unfolding handle_byte
    handle_byte-Good s fd byte good = elim (Bool-cases (byte == b'\n')) [
      | inl ends ↦ rw (ends, if◌then◌else◌) (end_of_line-Good s fd good)
      | inr other ↦ elim (Bool-cases (ltb s.msg_in_len s.msg_in_len_max)) [
        | inl fits ↦
            rw (other, fits, has_room s good.0, if◌then◌else◌)
              (
                record {
                  size = omega (arith, good.0.size, length-set s.msg_in s.msg_in_len byte);
                  used = omega (arith, (ltb_iff s.msg_in_len s.msg_in_len_max).0 fits);
                },
                good.1,
              )
        | inr full ↦
            rw (other, full, if◌then◌else◌)
              (reset-Good (write write_ok s fd (codes "Command too long."))
                (write-Good s fd (codes "Command too long.") good))
      ]
    ]

    handle_bytes-Good :
        (s : Conn A) (fd : ℕ) (input : List ℕ)
        → Good (s, true)
        → Within F (handle_bytes write_ok msg_handle s fd input) Good
    unfolding handle_bytes
    handle_bytes-Good s fd [] good = good
    handle_bytes-Good s fd (byte ∷ more) good =
        (bind-Within_last F (handle_byte write_ok msg_handle s fd byte) _ Good Good
          (λ r.
            unless_failed-Good (λ s'. handle_bytes write_ok msg_handle s' fd more)
              (λ s'. handle_bytes-Good s' fd more) r)
          (handle_byte-Good s fd byte good))

    data_event_handle-Good :
        (s : Conn A) (fd : ℕ) (read : Read)
        → Good (s, true)
        → Within F (data_event_handle write_ok msg_handle s fd read) Good
    unfolding data_event_handle
    data_event_handle-Good s fd again good = good
    data_event_handle-Good s fd failed good = good
    data_event_handle-Good s fd (bytes []) good = good
    data_event_handle-Good s fd (bytes (byte ∷ more)) good =
        let input = take s.buf_size (byte ∷ more) in
        (bind-Within_last F (handle_bytes write_ok msg_handle s fd input) _ Good Good
          (λ r.
            unless_failed-Good (λ s'. ok (write write_ok s' fd s'.prompt))
              (λ s'. write-Good s' fd s'.prompt) r)
          (handle_bytes-Good s fd input good))

    control_events-Good :
        (r : Conn A × Bool) (control : Bool) (fd : ℕ) (removed close_ok : Bool)
        → Good r
        → Good (control_events r control fd removed close_ok)
    unfolding control_event_handle
    control_events-Good (s, b) false fd removed close_ok good = good
    control_events-Good (s, true) true fd true close_ok good =
        (record { size = good.0.size; used = good.0.used }, good.1)
    control_events-Good (s, true) true fd false close_ok good = good
    control_events-Good (s, false) true fd true close_ok good =
        (record { size = good.0.size; used = good.0.used }, good.1)
    control_events-Good (s, false) true fd false close_ok good = good

    -- Let the handler end with no other faults than `F` where `I` holds of its state, and keep `I`
    -- when it returns. Then so does a poll of a bounded connection, whatever the client sends and
    -- whichever system calls fail: it ends with a fault of `F`, or with a result, and then the
    -- message and its NUL still fit in the buffer and `I` holds. Where `F` has no overrun, the poll
    -- so writes no byte of a message outside the buffer.
    pub conn_poll_for_msg-Within :
        (s : Conn A) (wait : Wait) (read : Read) (removed close_ok : Bool)
        → IsBounded s
        → I s.state
        → Within F
            (conn_poll_for_msg write_ok msg_handle s wait read removed close_ok)
            (λ r. IsBounded r.0 × I r.0.state)
    unfolding conn_poll_for_msg
    conn_poll_for_msg-Within s wait_failed read removed close_ok bounded kept = (bounded, kept)
    conn_poll_for_msg-Within s no_event read removed close_ok bounded kept = (bounded, kept)
    conn_poll_for_msg-Within s (event true control fd) read removed close_ok bounded kept =
        (bind-Within_last F (data_event_handle write_ok msg_handle s fd read) _ Good Good
          (λ r. control_events-Good r control fd removed close_ok)
          (data_event_handle-Good s fd read (bounded, kept)))
    conn_poll_for_msg-Within s (event false control fd) read removed close_ok bounded kept =
        control_events-Good (s, true) control fd removed close_ok (bounded, kept)
