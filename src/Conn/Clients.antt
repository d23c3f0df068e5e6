-- ===== src/Conn/Clients.antt =====
-- What becomes of the descriptor of a new client.
use tcp_dpdk.Base.{ℕ, ◌≡◌, refl, ◌⊎◌, inr, Bool, true, false, [], ◌∷◌, ◌++◌, arith}
use tcp_dpdk.Conn.{Conn, client, conn_poll_for_conn}

-- A client that `accept4` returns either stays open and has got the welcome and the prompt, in this
-- order, and the poll returns 0; or the poll returns -1 and has closed its descriptor, once. No
-- other descriptor is closed.
pub conn_poll_for_conn_cases :
    {A : Type 0} (write_ok : ℕ → Bool) (s : Conn A) (fd : ℕ) (added : Bool)
    → (((conn_poll_for_conn write_ok s (client fd) added).1 ≡ true)
        × ((conn_poll_for_conn write_ok s (client fd) added).0.closed ≡ s.closed)
        × ((conn_poll_for_conn write_ok s (client fd) added).0.written
            ≡ (s.written ++ (fd, s.welcome) ∷ []) ++ (fd, s.prompt) ∷ []))
      ⊎ (((conn_poll_for_conn write_ok s (client fd) added).1 ≡ false)
          × ((conn_poll_for_conn write_ok s (client fd) added).0.closed ≡ s.closed ++ fd ∷ []))
unfolding conn_poll_for_conn
conn_poll_for_conn_cases write_ok s fd false = inr (refl, refl)
conn_poll_for_conn_cases write_ok s fd true = ground arith
