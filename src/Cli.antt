-- ===== src/Cli.antt =====
-- `is_comment` and `cli_process` of src/cli/cli.c: the commands that reach the cores. The listings
-- of `dump` and `flow` read the connections; what goes to the console of the process is not kept.
pub mod Help
pub mod Flow
pub mod Safety
pub mod Quiet
use tcp_dpdk.Base.{
  ℕ, ◌%◌, ◌==◌, ◌&&◌, ◌||◌, Bool, true, false, List, [], ◌∷◌, ◌++◌, Option, none, some, Outcome, ok,
  fault, null_pointer, dangling, overrun, exited, ◌>>=◌, codes, is, atoi, snprintf, u16_mod,
  if◌then◌else◌,
}
use tcp_dpdk.Connection.{Connection, Quad}
use tcp_dpdk.Dpdk.{Dpdk}
use tcp_dpdk.Tcp.{Core}
use tcp_dpdk.Active.{active_connect, active_close, active_send_data}
use tcp_dpdk.Parser.{Tokenized, tokens, invalid, too_big, parse_tokenize_string}
use tcp_dpdk.Utility.{string_to_ip}
use tcp_dpdk.Listing.{dump_at, dump_cores}
use tcp_dpdk.Cli.Help.{cmd_help}

-- What of `struct config` the commands change: a `struct tcp` for each worker, the worker lcores
-- that `rte_eal_remote_launch` was called for, and `cp_quit`; and the text in `out`.
pub record Control (T : Type 0) : Type 0 where
  pub tcp_list : List (Core T)
  pub launched : List ℕ
  pub cp_quit : Bool
  pub out : List ℕ

abbrev pub is_comment : List ℕ → Bool
is_comment [] = false
is_comment (c ∷ []) = (c == b'!') || (c == b'#') || (c == b'%') || (c == b';')
is_comment (c ∷ e ∷ s) =
    (c == b'!')
    || (c == b'#')
    || (c == b'%')
    || (c == b';')
    || ((c == b'/') && (e == b'/'))
    || ((c == b'-') && (e == b'-'))

module _ {T : Type 0} (d : Dpdk T) where
  -- The quad of a flow, as a connection stores it; `none` is the `exit` on a bad address.
  abbrev pub flow_quad : List ℕ → List ℕ → List ℕ → List ℕ → ℕ → Option Quad
  flow_quad sip sport dip dport padding = elim (string_to_ip sip) [
    | none ↦ none
    | some a ↦ elim (string_to_ip dip) [
      | none ↦ none
      | some b ↦ some (record {
        sip = d.cpu_to_be_32 a;
        sport = d.cpu_to_be_16 (atoi sport % u16_mod);
        dip = d.cpu_to_be_32 b;
        dport = d.cpu_to_be_16 (atoi dport % u16_mod);
        padding = padding;
      })
    ]
  ]

  -- The loop over the cores: the call is for the first one whose table has the flow.
  unfoldable pub at_flow :
      Quad → (Core T → ℕ → Outcome (Core T)) → List (Core T) → Outcome (List (Core T))
  at_flow q call [] = ok []
  at_flow q call (s ∷ ss) = elim (d.hash_lookup_data s.tcp.rte_hash q) [
    | none ↦ (do ss' ← at_flow q call ss; ok (s ∷ ss'))
    | some p ↦ (do s' ← call s p; ok (s' ∷ ss))
  ]

  abbrev pub core_ids : List (Core T) → List ℕ
  core_ids [] = []
  core_ids (s ∷ ss) = s.tcp.core_id ∷ core_ids ss

  abbrev pub quit_all : List (Core T) → List (Core T)
  quit_all [] = []
  quit_all (s ∷ ss) = record s { tcp = record s.tcp { dp_quit = true } } ∷ quit_all ss

  module _ (out_size : ℕ) where
    abbrev pub print : Control T → List ℕ → Control T
    print s text = record s { out = snprintf out_size text }

    unfoldable pub on_flow :
        Control T → Option Quad → (Core T → ℕ → Outcome (Core T)) → Outcome (Control T)
    on_flow s none call = fault exited
    on_flow s (some q) call = do
      list ← at_flow q call s.tcp_list
      ok (record (print s (codes "look up the flow...\n")) { tcp_list = list })

    abbrev pub five_tokens : Control T → Control T
    five_tokens s = print s (codes "we need 5 tokens!\n")

    unfoldable pub flow : Control T → List (List ℕ) → ℕ → Outcome (Control T)
    flow s (sip ∷ sport ∷ dip ∷ dport ∷ []) padding =
        on_flow s (flow_quad sip sport dip dport padding)
          λ core p. do text ← dump_at d (core.heap p); ok core
    flow s _ padding = ok (five_tokens s)

    unfoldable pub close : Control T → List (List ℕ) → ℕ → Outcome (Control T)
    close s (sip ∷ sport ∷ dip ∷ dport ∷ []) padding =
        on_flow s (flow_quad sip sport dip dport padding) (active_close d)
    close s _ padding = ok (five_tokens s)

    unfoldable pub send : Control T → List (List ℕ) → ℕ → Outcome (Control T)
    send s (sip ∷ sport ∷ dip ∷ dport ∷ bytes ∷ []) padding =
        on_flow s (flow_quad sip sport dip dport padding) λ core p. active_send_data d core p bytes
    send s _ padding = ok (five_tokens s)

    -- From port 8000 of the first core.
    unfoldable pub connect_first :
        Control T → List (Core T) → Option ℕ → List ℕ → ℕ → Outcome (Control T)
    connect_first s list none port padding = fault exited
    connect_first s [] (some ip) port padding = fault overrun
    connect_first s (core ∷ cores) (some ip) port padding = do
      core' ←
          active_connect d core (d.cpu_to_be_32 ip) (d.cpu_to_be_16 (atoi port % u16_mod))
            (d.cpu_to_be_16 8000) padding
      ok (record (print s (codes "connect!\n")) { tcp_list = core' ∷ cores })

    -- The array of tokens ends with NULL, which is not tested for.
    unfoldable pub connect : Control T → List (List ℕ) → ℕ → Outcome (Control T)
    connect s [] padding = fault null_pointer
    connect s (ip ∷ []) padding = elim (string_to_ip ip) [
      | none ↦ fault exited
      | some a ↦ fault null_pointer
    ]
    connect s (ip ∷ port ∷ more) padding = connect_first s s.tcp_list (string_to_ip ip) port padding

    unfoldable pub command : Control T → List ℕ → List (List ℕ) → ℕ → Outcome (Control T)
    command s name args padding =
        if is name "help"
        then ok (record s { out = cmd_help s.out args out_size })
        else if is name "ddio"
        then ok s
        else if is name "ddio-disable"
        then ok s
        else if is name "stop"
        then ok s
        else if is name "start"
        then ok (record (print s (codes "start the tcp thread!\n")) {
          launched = s.launched ++ core_ids s.tcp_list;
        })
        else if is name "configure"
        then ok s
        else if is name "exit"
        then ok (record s { tcp_list = quit_all s.tcp_list; cp_quit = true })
        else if is name "dump"
        then (do text ← dump_cores d s.tcp_list; ok (print s (codes "dump!\n")))
        else if is name "flow"
        then flow s args padding
        else if is name "close"
        then close s args padding
        else if is name "send"
        then send s args padding
        else if is name "connect"
        then connect s args padding
        else ok (print s (codes "Unknown command \"" ++ name ++ codes "\".\n"))

    unfoldable pub process_tokens : Control T → Tokenized → ℕ → Outcome (Control T)
    process_tokens s (tokens []) padding = ok s
    process_tokens s (tokens (name ∷ args)) padding = command s name args padding
    process_tokens s _ padding = ok (print s (codes "Too many arguments for command \"\".\n"))

    -- `padding` is what the stack holds in the padding of `q`.
    unfoldable pub cli_process : Control T → List ℕ → ℕ → Outcome (Control T)
    cli_process s line padding =
        if is_comment line then ok s else process_tokens s (parse_tokenize_string line 256) padding
