-- ===== src/Conn/Arrivals.antt =====
-- The message and the handler's state when a client comes, or none does.
use tcp_dpdk.Base.{ℕ, ◌≡◌, refl, inl, inr, Bool, true, false, Bool-cases, List}
use tcp_dpdk.Conn.{
  Conn, Accept, nobody, refused, client, close_unless, write, greet, conn_poll_for_conn,
}
use tcp_dpdk.Conn.Bounds.{IsBounded}

pub record IsKept {A : Type 0} (s r : Conn A) : Type 0 where
  pub bounded : IsBounded r
  pub state : r.state ≡ s.state
  pub used : r.msg_in_len ≡ s.msg_in_len
  pub room : r.msg_in_len_max ≡ s.msg_in_len_max
  pub reads : r.buf_size ≡ s.buf_size

-- What is logged of the calls makes no difference.
logged-IsKept :
    {A : Type 0} (s r : Conn A) (written : List (ℕ × List ℕ)) (writes : ℕ) (closed : List ℕ)
    → IsKept s r
    → IsKept s (record r { written = written; writes = writes; closed = closed })
logged-IsKept s r written writes closed k = record {
  bounded = record { size = k.bounded.size; used = k.bounded.used };
  state = k.state;
  used = k.used;
  room = k.room;
  reads = k.reads;
}

module _ {A : Type 0} (write_ok : ℕ → Bool) where
  same-IsKept : (s : Conn A) → IsBounded s → IsKept s s
  same-IsKept s bounded = record {
    bounded = bounded;
    state = refl;
    used = refl;
    room = refl;
    reads = refl;
  }

  pub write-IsKept :
      (s r : Conn A) (fd : ℕ) (text : List ℕ) → IsKept s r → IsKept s (write write_ok r fd text).0
  write-IsKept s r fd text k = elim (Bool-cases (write_ok r.writes)) [
    | inl done ↦ rw done (logged-IsKept s r _ _ r.closed k)
    | inr broken ↦ rw broken (logged-IsKept s r r.written _ r.closed k)
  ]

  close_unless-IsKept :
      (s : Conn A) (fd : ℕ) (r : Conn A × Bool) → IsKept s r.0 → IsKept s (close_unless fd r).0
  close_unless-IsKept s fd (r, true) k = k
  close_unless-IsKept s fd (r, false) k = logged-IsKept s r r.written r.writes _ k

  greet-IsKept :
      (s : Conn A) (r : Conn A × Bool) (fd : ℕ) → IsKept s r.0 → IsKept s (greet write_ok r fd).0
  greet-IsKept s (r, false) fd k = close_unless-IsKept s fd (r, false) k
  greet-IsKept s (r, true) fd k =
      close_unless-IsKept s fd (write write_ok r fd r.prompt) (write-IsKept s r fd r.prompt k)

  pub conn_poll_for_conn-IsKept :
      (s : Conn A) (accept : Accept) (added : Bool)
      → IsBounded s
      → IsKept s (conn_poll_for_conn write_ok s accept added).0
  unfolding conn_poll_for_conn
  conn_poll_for_conn-IsKept s nobody added bounded = same-IsKept s bounded
  conn_poll_for_conn-IsKept s refused added bounded = same-IsKept s bounded
  conn_poll_for_conn-IsKept s (client fd) false bounded =
      close_unless-IsKept s fd (s, false) (same-IsKept s bounded)
  conn_poll_for_conn-IsKept s (client fd) true bounded =
      greet-IsKept s (write write_ok s fd s.welcome) fd
        (write-IsKept s s fd s.welcome (same-IsKept s bounded))
