-- ===== src/Tests/Console.antt =====
-- The theorems on the command line and its connection at concrete inputs.
use tcp_dpdk.Base.{
  some, ℕ, ◌+◌, ◌≡◌, ◌⊎◌, refl, true, false, List, [], ◌∷◌, ◌++◌, Outcome, ok, Returns, NoStale,
  ◌>>=◌, codes, leb, length, replicate, All, arith, if◌then◌else◌,
}
use tcp_dpdk.Rx.{quad_of}
use tcp_dpdk.Active.{active_close}
use tcp_dpdk.Parser.{tokens, too_big, parse_tokenize_string}
use tcp_dpdk.Parser.Words.{words, parse_tokenize_string_iff}
use tcp_dpdk.Cli.{Control, at_flow, cli_process}
use tcp_dpdk.Cli.Flow.{Lacks, Hit, at_flow_cases}
use tcp_dpdk.Cli.Safety.{AreWellFormed, cli_process-NoStale}
use tcp_dpdk.Cli.Quiet.{IsQuiet, Spares, cli_process-Spares}
use tcp_dpdk.Conn.{Conn, handle_bytes}
use tcp_dpdk.Conn.Setup.{System, nothing, Outcomes, conn_init, conn_init-Outcomes}
use tcp_dpdk.Conn.Lines.{Passed, handle_bytes-line}
use tcp_dpdk.Tests.Platform.{Table, platform, platform-IsDpdk}
use tcp_dpdk.Tests.Traffic.{idle_core, syn}
use tcp_dpdk.Tests.Witnesses.{idle-IsWellFormed}

parse_tokenize_string_example : parse_tokenize_string (codes "  connect 10.0.0.1  80") 2 ≡ (
    if leb (length (words (codes "  connect 10.0.0.1  80"))) 2
    then tokens (words (codes "  connect 10.0.0.1  80"))
    else too_big)
parse_tokenize_string_example =
    parse_tokenize_string_iff (codes "  connect 10.0.0.1  80") 2 (omega arith)

at_flow_cases_example :
    (All (Lacks platform (quad_of syn)) (idle_core ∷ [])
      × (at_flow platform (quad_of syn) (active_close platform) (idle_core ∷ [])
          ≡ ok (idle_core ∷ [])))
    ⊎ ((h : Hit platform (quad_of syn) (idle_core ∷ [])) × (at_flow platform
            (quad_of syn)
            (active_close platform)
            (idle_core ∷ [])
          ≡ (active_close platform h.at h.address >>= λ core. ok (h.before ++ core ∷ h.behind))))
at_flow_cases_example =
    at_flow_cases platform (quad_of syn) (active_close platform) (idle_core ∷ [])

abbrev console : Control Table
console = record { tcp_list = idle_core ∷ []; launched = 1 ∷ []; cp_quit = false; out = [] }

cli_process-NoStale_example :
    NoStale
      (cli_process platform 1024 console (codes "connect 192.168.11.111 2000") 0)
      (AreWellFormed platform platform-IsDpdk 1024)
cli_process-NoStale_example =
    cli_process-NoStale platform platform-IsDpdk 1024 console (codes "connect 192.168.11.111 2000")
      0 (idle-IsWellFormed, tt)

adjust-IsQuiet : IsQuiet (codes "adjust")
adjust-IsQuiet = record {
  start = refl;
  exit = refl;
  dump = refl;
  flow = refl;
  close = refl;
  send = refl;
  connect = refl;
}

cli_process-Spares_example :
    Returns
      (cli_process platform 1024 console (codes " adjust  now") 0)
      (Spares platform 1024 console)
cli_process-Spares_example =
    cli_process-Spares platform 1024 console (codes " adjust  now") (codes "adjust")
      (codes "now" ∷ []) 0 refl adjust-IsQuiet

-- A handler that answers with what it got, and counts.
abbrev echo : ℕ → List ℕ → Outcome (ℕ × List ℕ)
echo n line = ok (n + 1, line)

abbrev pub idle_conn : Conn ℕ
idle_conn = record {
  welcome = codes "Welcome";
  prompt = codes "TCP> ";
  msg_in = replicate 9 0;
  buf_size = 64;
  msg_in_len_max = 8;
  msg_out_len_max = 64;
  msg_in_len = 0;
  fd_server = 3;
  fd_client_group = 4;
  state = 0;
  written = [];
  writes = 0;
  closed = [];
}

handle_bytes-line_example :
    (b : List ℕ) × (length b ≡ length idle_conn.msg_in)
    × (handle_bytes (λ n. true) echo idle_conn 5 (codes "stop" ++ b'\n' ∷ codes "du")
        ≡ Passed (λ n. true) echo idle_conn 5 (codes "stop") (codes "du") b)
handle_bytes-line_example =
    handle_bytes-line (λ n. true) echo idle_conn 5 (codes "stop") (codes "du")
      (record { size = refl; used = omega arith }) refl (omega arith) (omega arith)

-- The port is taken.
abbrev busy_port : System
busy_port = record {
  inet_aton = true;
  calloc = λ b. true;
  socket = some 5;
  bind = false;
  listen = true;
  epoll_create = some 6;
}

conn_init-Outcomes_example : Outcomes {A = ℕ} busy_port 0 (conn_init busy_port 0 nothing)
conn_init-Outcomes_example = conn_init-Outcomes busy_port 0
