-- ===== src/Tests/Boots.antt =====
-- The program from its configuration file on, at concrete inputs.
use tcp_dpdk.Base.{
  ℕ, ◌≡◌, true, false, List, [], ◌∷◌, ◌++◌, some, ok, NoStale, IsFresh, Returns, decimal, ◌==◌,
  if◌then◌else◌, codes, arith, refl,
}
use tcp_dpdk.Tests.Witnesses.{idle-IsWellFormed}
use tcp_dpdk.Cli.Safety.{AreWellFormed}
use tcp_dpdk.Conn.Bounds.{IsBounded, conn_poll_for_msg-Within}
use tcp_dpdk.Conn.{conn_poll_for_msg, client, nobody, event, no_event, bytes}
use tcp_dpdk.Conn.Setup.{System, filled}
use tcp_dpdk.Utility.{string_to_ip}
use tcp_dpdk.Utility.Dotted.{string_to_ip-dotted}
use tcp_dpdk.Port.{Device, configure, adjust, start, promiscuous, rx_queue, tx_queue, port_init}
use tcp_dpdk.Port.Plan.{plan, Follows, port_init-Follows}
use tcp_dpdk.Main.Exit.{AreTold, main_turn-exit}
use tcp_dpdk.Config.{Settings, Field, parse_args}
use tcp_dpdk.Config.Options.{parse_args-option_args}
use tcp_dpdk.Startup.{Boot, IsBoot}
use tcp_dpdk.Main.{Event, Turn, turn, packet, terminate, World, msg_handle, main_turn, main}
use tcp_dpdk.Main.Safety.{IsSafeStart, main-IsSafe, msg_handle-NoStale}
use tcp_dpdk.Tests.Platform.{Table, platform, platform-IsDpdk}
use tcp_dpdk.Tests.Traffic.{idle_core, syn, ack}

abbrev blank : Settings
blank = record { src_ip = []; src_mac = []; dst_mac = [] }

parse_args-option_args_example :
    parse_args blank (
      codes "prog"
      ∷ codes "src_ip"
      ∷ codes "10.0.0.1"
      ∷ codes "dst_mac"
      ∷ codes "90:eb"
      ∷ codes "--"
      ∷ [])
    ≡ ok (record { src_ip = codes "10.0.0.1"; src_mac = []; dst_mac = codes "90:eb" }, some 5)
parse_args-option_args_example =
    parse_args-option_args ((Field.src_ip, codes "10.0.0.1") ∷ (Field.dst_mac, codes "90:eb") ∷ [])
      blank (codes "prog") []

abbrev machine : Boot Table
machine = record {
  eal_init = λ argv. some 2;
  count_ports = 1;
  hash_create = λ n. some [];
  malloc_nic = some (record { ip = 0; mac = 0; dst_mac = 0 });
  unformat_addr = λ text. some 0xd612_065f_6180;
  eth = 0;
  settings = blank;
}

machine-IsBoot : IsBoot platform machine
machine-IsBoot = record { created_empty = λ lcore t q e. ground (arith, e) }

abbrev calls : System
calls = record {
  inet_aton = true;
  calloc = λ b. true;
  socket = some 5;
  bind = true;
  listen = true;
  epoll_create = some 6;
}

-- The client sends a line, or says nothing.
abbrev says : List ℕ → Turn
says line = record {
  accept = nobody;
  added = true;
  wait = event true false 7;
  read = bytes (line ++ 10 ∷ []);
  removed = true;
  close_ok = true;
}

abbrev run_txt : List ℕ
run_txt = codes "-l\n0-1\nprog\nsrc_ip\n192.168.0.1\n--\n"

abbrev day : List Event
day =
    turn (record (says []) { accept = client 7; wait = no_event })
    ∷ turn (says (codes "start"))
    ∷ packet 0 syn
    ∷ packet 0 ack
    ∷ turn (says (codes "dump"))
    ∷ terminate
    ∷ []

main-IsSafe_example :
    NoStale
      (main platform 0 (λ n. true) machine (some run_txt) ((1, idle_core) ∷ []) calls day)
      (IsSafeStart platform 0 (λ n. true) platform-IsDpdk)
main-IsSafe_example =
    main-IsSafe platform 0 (λ n. true) platform-IsDpdk machine machine-IsBoot (some run_txt)
      ((1, idle_core) ∷ []) calls day
      (tt, (tt, ((omega arith, omega arith), ((omega arith, omega arith), (tt, (tt, tt))))))

-- The command line at its start, with one core.
abbrev console : World platform
console =
    filled calls
      (record { tcp_list = idle_core ∷ []; launched = 1 ∷ []; cp_quit = false; out = [] }) 5 6

main_turn-exit_example :
    Returns (main_turn platform 0 (λ n. true) console (says (codes "exit"))) (λ u.
      AreTold (idle_core ∷ []) u.state.tcp_list
      × ((later : Turn) → main_turn platform 0 (λ n. true) u later ≡ ok u))
main_turn-exit_example =
    main_turn-exit platform 0 (λ n. true) console (says (codes "exit")) false 7
      (record { size = refl; used = omega arith }) refl (omega arith) (omega arith) refl refl refl

-- With the handler of the program.
conn_poll_for_msg-Within_example :
    NoStale
      (conn_poll_for_msg
        (λ n. true)
        (msg_handle platform 0)
        console
        (event true false 7)
        (bytes (codes "a line that is much longer than the buffer\n"))
        true
        true)
      (λ r. IsBounded r.0 × AreWellFormed platform platform-IsDpdk 0 r.0.state)
conn_poll_for_msg-Within_example =
    conn_poll_for_msg-Within (λ n. true) (msg_handle platform 0) IsFresh
      (AreWellFormed platform platform-IsDpdk 0)
      (msg_handle-NoStale platform 0 (λ n. true) platform-IsDpdk) console (event true false 7)
      (bytes (codes "a line that is much longer than the buffer\n")) true true
      (record { size = refl; used = omega arith }) (idle-IsWellFormed, tt)

abbrev ready : Settings
ready = record { src_ip = codes "192.168.0.1"; src_mac = []; dst_mac = [] }

-- A device whose second receive queue cannot be set up.
abbrev device : Device
device = record {
  fast_free = true;
  is_valid_port = true;
  result = λ c. elim c [
    | configure n f ↦ 0
    | adjust ↦ 0
    | start ↦ 0
    | promiscuous ↦ 0
    | rx_queue q ↦ if q == 1 then 0xffff_ffea else 0
    | tx_queue q f ↦ 0
  ];
}

port_init-Follows_example : Follows device (plan 2 true) (port_init device 2)
port_init-Follows_example = port_init-Follows device 2 refl

string_to_ip-dotted_example : string_to_ip (codes "192.168.0.1") ≡ some 0xc0a8_0001
unfolding decimal
string_to_ip-dotted_example =
    string_to_ip-dotted 192 168 0 1 [] (omega arith) (omega arith) (omega arith) (omega arith) tt
