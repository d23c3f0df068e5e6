-- ===== src/Cli/Quiet.antt =====
-- The commands of `cli_process` that are about no core.
use tcp_dpdk.Base.{
  ℕ, ◌≡◌, refl, Bool, true, false, List, ◌∷◌, Outcome, Returns, Returns-if, is, leb, length,
  if◌then◌else◌, arith,
}
use tcp_dpdk.Dpdk.{Dpdk}
use tcp_dpdk.Parser.{tokens, too_big}
use tcp_dpdk.Parser.Words.{words, parse_tokenize_string_iff}
use tcp_dpdk.Cli.{Control, is_comment, command, process_tokens, cli_process}

Returns-unless :
    {A : Type 0} (b : Bool) (m n : Outcome A) (P : A → Type 0)
    → b ≡ false
    → Returns n P
    → Returns (if b then m else n) P
Returns-unless b m n P e k = rw e k

-- None of the commands that start, stop or use a core.
pub record IsQuiet (name : List ℕ) : Type 0 where
  pub start : is name "start" ≡ false
  pub exit : is name "exit" ≡ false
  pub dump : is name "dump" ≡ false
  pub flow : is name "flow" ≡ false
  pub close : is name "close" ≡ false
  pub send : is name "send" ≡ false
  pub connect : is name "connect" ≡ false

module _ {T : Type 0} (d : Dpdk T) (out_size : ℕ) (s : Control T) where
  -- All but the answer is as it was.
  abbrev pub Spares : Control T → Type 0
  Spares u = (u.tcp_list ≡ s.tcp_list) × (u.launched ≡ s.launched) × (u.cp_quit ≡ s.cp_quit)

  command-Spares :
      (name : List ℕ) (args : List (List ℕ)) (padding : ℕ)
      → IsQuiet name
      → Returns (command d out_size s name args padding) Spares
  unfolding command
  command-Spares name args padding quiet =
      let same : Spares s = (refl, refl, refl) in
      Returns-if (is name "help") _ _ Spares (λ e. same)
        (λ e.
          Returns-if (is name "ddio") _ _ Spares (λ e. same)
            (λ e.
              Returns-if (is name "ddio-disable") _ _ Spares (λ e. same)
                (λ e.
                  Returns-if (is name "stop") _ _ Spares (λ e. same)
                    (λ e. Returns-unless (is name "start") _ _ Spares quiet.start (
                      Returns-if (is name "configure") _ _ Spares (λ e. same)
                        (λ e. Returns-unless (is name "exit") _ _ Spares quiet.exit (
                          Returns-unless (is name "dump") _ _ Spares quiet.dump (
                            Returns-unless (is name "flow") _ _ Spares quiet.flow (
                              Returns-unless (is name "close") _ _ Spares quiet.close (
                                Returns-unless (is name "send") _ _ Spares quiet.send (
                                  Returns-unless (is name "connect") _ _ Spares quiet.connect
                                    same)))))))))))

  process_tokens-Spares :
      (name : List ℕ) (args : List (List ℕ)) (b : Bool) (padding : ℕ)
      → IsQuiet name
      → Returns
          (process_tokens d out_size s (if b then tokens (name ∷ args) else too_big) padding)
          Spares
  unfolding process_tokens
  process_tokens-Spares name args true padding quiet = command-Spares name args padding quiet
  process_tokens-Spares name args false padding quiet = (refl, refl, refl)

  -- A line whose first word is none of `start`, `exit`, `dump`, `flow`, `close`, `send` and `connect`, a
  -- comment or not: the command returns, no core and no launch is changed, and `cp_quit` neither.
  pub cli_process-Spares :
      (line name : List ℕ) (args : List (List ℕ)) (padding : ℕ)
      → words line ≡ name ∷ args
      → IsQuiet name
      → Returns (cli_process d out_size s line padding) Spares
  unfolding cli_process
  cli_process-Spares line name args padding parts quiet =
      Returns-if (is_comment line) _ _ Spares (λ e. (refl, refl, refl))
        (λ e.
          rw (parse_tokenize_string_iff line 256 (omega arith), parts)
            (process_tokens-Spares name args (leb (length (name ∷ args)) 256) padding quiet))
