-- ===== src/Cli/Safety.antt =====
-- `cli_process` and the invariant of a core.
use tcp_dpdk.Base.{
  ℕ, ◌≡◌, inl, inr, Bool, true, false, List, [], ◌∷◌, Option, none, some, Outcome, ok, fault,
  exited, ◌>>=◌, codes, null_pointer, is, NoStale, IsFresh, OrNull-NoStale, bind-Within,
  Returns-OrNull, Bool-cases, Option-cases, All, length, leb, leb_iff, if◌then◌else◌,
}
use tcp_dpdk.Connection.{Quad}
use tcp_dpdk.Dpdk.{Dpdk, IsDpdk}
use tcp_dpdk.Tcp.{Core}
use tcp_dpdk.Active.{active_connect, active_close, active_send_data, send_session}
use tcp_dpdk.Parser.{Tokenized, tokens, parse_tokenize_string}
use tcp_dpdk.Utility.{string_to_ip}
use tcp_dpdk.Invariant.{IsWellFormed}
use tcp_dpdk.Invariant.Commands.{
  active_connect-IsWellFormed, active_close-IsWellFormed, active_send_data-IsWellFormed,
}
use tcp_dpdk.Listing.{dump_at, dump_cores}
use tcp_dpdk.Listing.Safety.{dump_cores-Returns}
use tcp_dpdk.Cli.{
  print, Control, at_flow, on_flow, flow_quad, flow, close, send, connect_first, connect, quit_all,
  command, process_tokens, is_comment, cli_process,
}

NoStale-if :
    {A : Type 0} (b : Bool) (m n : Outcome A) (P : A → Type 0)
    → NoStale m P
    → NoStale n P
    → NoStale (if b then m else n) P
NoStale-if true m n P h k = h
NoStale-if false m n P h k = k

module _ {T : Type 0} (d : Dpdk T) (laws : IsDpdk d) (out_size : ℕ) where
  abbrev pub AreWellFormed : Control T → Type 0
  AreWellFormed s = All (IsWellFormed d) s.tcp_list

  -- A call that is safe for the address that the table has for the flow.
  abbrev IsSafe : Quad → (Core T → ℕ → Outcome (Core T)) → Type 0
  IsSafe q call =
      (s : Core T) (p : ℕ)
      → IsWellFormed d s
      → d.hash_lookup_data s.tcp.rte_hash q ≡ some p
      → NoStale (call s p) (IsWellFormed d)

  at_flow-NoStale :
      (q : Quad) (call : Core T → ℕ → Outcome (Core T)) (ss : List (Core T))
      → IsSafe q call
      → All (IsWellFormed d) ss
      → NoStale (at_flow d q call ss) (All (IsWellFormed d))
  unfolding at_flow
  at_flow-NoStale q call [] safe wf = tt
  at_flow-NoStale q call (s ∷ ss) safe wf =
      elim (Option-cases (d.hash_lookup_data s.tcp.rte_hash q)) [
        | inl lacks ↦
            rw (lacks, at_flow)
              (bind-Within IsFresh (at_flow d q call ss) (λ ss'. ok (s ∷ ss'))
                (All (IsWellFormed d)) (All (IsWellFormed d)) (at_flow-NoStale q call ss safe wf.1)
                (λ ss' wf'. (wf.0, wf')))
        | inr (p, found) ↦
            rw (found, at_flow)
              (bind-Within IsFresh (call s p) (λ s'. ok (s' ∷ ss)) (IsWellFormed d)
                (All (IsWellFormed d)) (safe s p wf.0 found) (λ s' wf'. (wf', wf.1)))
      ]

  on_flow-NoStale :
      (s : Control T) (o : Option Quad) (call : Core T → ℕ → Outcome (Core T))
      → ((q : Quad) → IsSafe q call)
      → AreWellFormed s
      → NoStale (on_flow d out_size s o call) AreWellFormed
  unfolding on_flow
  on_flow-NoStale s none call safe wf = tt
  on_flow-NoStale s (some q) call safe wf =
      bind-Within IsFresh (at_flow d q call s.tcp_list) _ (All (IsWellFormed d)) AreWellFormed
        (at_flow-NoStale q call s.tcp_list (safe q) wf) (λ list wf'. wf')

  flow-NoStale :
      (s : Control T) (args : List (List ℕ)) (padding : ℕ)
      → AreWellFormed s
      → NoStale (flow d out_size s args padding) AreWellFormed
  unfolding flow dump_at
  flow-NoStale s (sip ∷ sport ∷ dip ∷ dport ∷ []) padding wf =
      on_flow-NoStale s (flow_quad d sip sport dip dport padding) _
        (λ q core p core_wf found. let (c, at_p, _, _) = core_wf q p found in rw at_p core_wf) wf
  flow-NoStale s _ padding wf = wf

  close-NoStale :
      (s : Control T) (args : List (List ℕ)) (padding : ℕ)
      → AreWellFormed s
      → NoStale (close d out_size s args padding) AreWellFormed
  unfolding close
  close-NoStale s (sip ∷ sport ∷ dip ∷ dport ∷ []) padding wf =
      on_flow-NoStale s (flow_quad d sip sport dip dport padding) (active_close d)
        (λ q core p core_wf found. OrNull-NoStale _ (IsWellFormed d) (
          Returns-OrNull _ (IsWellFormed d)
            (active_close-IsWellFormed d laws core q p core_wf found)))
        wf
  close-NoStale s _ padding wf = wf

  active_send_data-NoStale :
      (q : Quad) (bytes : List ℕ) → IsSafe q (λ s p. active_send_data d s p bytes)
  unfolding active_send_data send_session
  active_send_data-NoStale q bytes s p wf found = elim (Bool-cases (leb (length bytes) 100)) [
    | inl short ↦ OrNull-NoStale _ (IsWellFormed d) (
        Returns-OrNull _ (IsWellFormed d) (
          active_send_data-IsWellFormed d laws s q p bytes wf found
            ((leb_iff (length bytes) 100).0 short)))
    | inr long ↦ let (c, at_p, _, _) = wf q p found in rw (at_p, long) tt
  ]

  send-NoStale :
      (s : Control T) (args : List (List ℕ)) (padding : ℕ)
      → AreWellFormed s
      → NoStale (send d out_size s args padding) AreWellFormed
  unfolding send
  send-NoStale s (sip ∷ sport ∷ dip ∷ dport ∷ bytes ∷ []) padding wf =
      on_flow-NoStale s (flow_quad d sip sport dip dport padding) _
        (λ q. active_send_data-NoStale q bytes) wf
  send-NoStale s _ padding wf = wf

  connect_first-NoStale :
      (s : Control T) (list : List (Core T)) (o : Option ℕ) (port : List ℕ) (padding : ℕ)
      → All (IsWellFormed d) list
      → NoStale (connect_first d out_size s list o port padding) AreWellFormed
  unfolding connect_first
  connect_first-NoStale s list none port padding wf = tt
  connect_first-NoStale s [] (some ip) port padding wf = tt
  connect_first-NoStale s (core ∷ cores) (some ip) port padding wf =
      bind-Within IsFresh (active_connect d core _ _ _ padding) _ (IsWellFormed d) AreWellFormed
        (OrNull-NoStale _ (IsWellFormed d)
          (active_connect-IsWellFormed d laws core _ _ _ padding wf.0))
        (λ core' wf'. (wf', wf.1))

  connect_one-NoStale :
      (o : Option ℕ)
      → NoStale (elim o [ none ↦ fault exited | some a ↦ fault null_pointer ]) AreWellFormed
  connect_one-NoStale none = tt
  connect_one-NoStale (some a) = tt

  connect-NoStale :
      (s : Control T) (args : List (List ℕ)) (padding : ℕ)
      → AreWellFormed s
      → NoStale (connect d out_size s args padding) AreWellFormed
  unfolding connect
  connect-NoStale s [] padding wf = tt
  connect-NoStale s (ip ∷ []) padding wf = connect_one-NoStale (string_to_ip ip)
  connect-NoStale s (ip ∷ port ∷ more) padding wf =
      connect_first-NoStale s s.tcp_list (string_to_ip ip) port padding wf

  pub quit_all-AreWellFormed :
      (ss : List (Core T)) → All (IsWellFormed d) ss → All (IsWellFormed d) (quit_all d ss)
  quit_all-AreWellFormed [] wf = tt
  quit_all-AreWellFormed (s ∷ ss) wf = (wf.0, quit_all-AreWellFormed ss wf.1)

  dump-NoStale :
      (s : Control T)
      → AreWellFormed s
      → NoStale
          (dump_cores d s.tcp_list >>= λ text. ok (print d out_size s (codes "dump!\n")))
          AreWellFormed
  dump-NoStale s wf =
      bind-Within IsFresh (dump_cores d s.tcp_list) _ (λ text. Unit {0}) AreWellFormed
        (OrNull-NoStale _ (λ text. Unit {0})
          (Returns-OrNull _ (λ text. Unit {0}) (dump_cores-Returns d laws s.tcp_list wf)))
        (λ text u. wf)

  command-NoStale :
      (s : Control T) (name : List ℕ) (args : List (List ℕ)) (padding : ℕ)
      → AreWellFormed s
      → NoStale (command d out_size s name args padding) AreWellFormed
  unfolding command
  command-NoStale s name args padding wf = NoStale-if (is name "help") _ _ AreWellFormed wf (
      NoStale-if (is name "ddio") _ _ AreWellFormed wf (
        NoStale-if (is name "ddio-disable") _ _ AreWellFormed wf (
          NoStale-if (is name "stop") _ _ AreWellFormed wf (
            NoStale-if (is name "start") _ _ AreWellFormed wf (
              NoStale-if (is name "configure") _ _ AreWellFormed wf (
                NoStale-if (is name "exit") _ _ AreWellFormed (quit_all-AreWellFormed s.tcp_list wf)
                  (NoStale-if (is name "dump") _ _ AreWellFormed (dump-NoStale s wf) (
                    NoStale-if (is name "flow") _ _ AreWellFormed (flow-NoStale s args padding wf) (
                      NoStale-if (is name "close") _ _ AreWellFormed
                        (close-NoStale s args padding wf)
                        (NoStale-if (is name "send") _ _ AreWellFormed
                          (send-NoStale s args padding wf)
                          (NoStale-if (is name "connect") _ _ AreWellFormed
                            (connect-NoStale s args padding wf) wf)))))))))))

  process_tokens-NoStale :
      (s : Control T) (t : Tokenized) (padding : ℕ)
      → AreWellFormed s
      → NoStale (process_tokens d out_size s t padding) AreWellFormed
  unfolding process_tokens
  process_tokens-NoStale s (tokens []) padding wf = wf
  process_tokens-NoStale s (tokens (name ∷ args)) padding wf =
      command-NoStale s name args padding wf
  process_tokens-NoStale s _ padding wf = wf

  -- DPDK is taken to behave as documented. Any line, from well-formed cores, as one step: if the
  -- command returns, the cores are well-formed; if it does not, it ends by the `exit` on a bad
  -- address, a NULL pointer or an overrun, and not by a pointer to a connection that was freed or
  -- by `rte_panic`. That `send_p` gives a buffer back which the driver has is no fault of the
  -- model.
  pub cli_process-NoStale :
      (s : Control T) (line : List ℕ) (padding : ℕ)
      → AreWellFormed s
      → NoStale (cli_process d out_size s line padding) AreWellFormed
  unfolding cli_process
  cli_process-NoStale s line padding wf =
      NoStale-if (is_comment line) (ok s) _ AreWellFormed wf
        (process_tokens-NoStale s (parse_tokenize_string line 256) padding wf)
