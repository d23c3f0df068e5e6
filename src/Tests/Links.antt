-- ===== src/Tests/Links.antt =====
-- Two hosts on the platform, and a session of theirs.
use tcp_dpdk.Base.{
  subst, Bool-cases, inl, inr, decimal, ℕ, ◌≡◌, refl, List, [], ◌∷◌, none, some, length, Option,
  Outcome, ok, fault, Returns, codes, arith,
}
use tcp_dpdk.Connection.{Connection, Quad, quad_eq, established}
use tcp_dpdk.Tcp.{Core}
use tcp_dpdk.Flags.{has_flag, clear_flag, set_flag}
use tcp_dpdk.Seq.{is_between_wrapped}
use tcp_dpdk.Segment.{segment_check}
use tcp_dpdk.Tx.{tcp_tx_packets, after_send, fill_headers, send_p}
use tcp_dpdk.Handlers.{
  store, open_and_send, handle_tcp_listen, listen_at, init_listen, handle_tcp_syn_sent, acks_sent,
  count_connection, handle_tcp_establish, handle_tcp_fin_wait1, handle_tcp_last_ack,
  handle_tcp_syn_recv, reply, take_syn_ack, print_data,
}
use tcp_dpdk.Rx.{rx_packet, receive_segment, receive_at, dispatch_at, dispatch, finish_last_ack}
use tcp_dpdk.Active.{
  active_connect, connect_unless, connect_at, init_connect, active_close, active_send_data,
  close_session, send_session,
}
use tcp_dpdk.Link.{
  Arrival, Exchange, IsKeyed, AreKeyed, AreHosts, Line, by_a, by_b, flip, IsAmple, open_link,
  session, converse, say, close_link,
}
use tcp_dpdk.Link.Ends.{HasRoom, InSync}
use tcp_dpdk.Link.Handshake.{open_link-InSync}
use tcp_dpdk.Link.Conversation.{converse-InSync}
use tcp_dpdk.Link.Session.{IsOver, session-IsOver}
use tcp_dpdk.Invariant.{IsWellFormed, IsSound, quad_eq_iff}
use tcp_dpdk.Listing.{dump_hashtable, dump_entries, dump_at, dump_connection}
use tcp_dpdk.Listing.Safety.{Lists, dump_hashtable-Lists}
use tcp_dpdk.Tests.Platform.{find, Table, platform, platform-IsDpdk, blank, swap_16}
use tcp_dpdk.Tests.Traffic.{our_ip, peer_ip, idle_core}

-- How many frames each host has sent.
abbrev frames : Outcome (Core Table × Core Table) → Option (ℕ × ℕ)
frames (fault e) = none
frames (ok r) = some (length r.0.tcp.sent, length r.1.tcp.sent)

-- The peer of `idle_core`, which also runs the program.
abbrev peer_core : Core Table
peer_core = record idle_core {
  tcp = record idle_core.tcp {
    nic = record { ip = peer_ip; mac = 0x90eb_1b9f_36a0; dst_mac = 0xd612_065f_6180 };
  };
}

abbrev our_quad : Quad
our_quad = record {
  sip = peer_ip;
  sport = swap_16 80;
  dip = our_ip;
  dport = swap_16 2000;
  padding = 0;
}

abbrev arrival : Arrival
arrival = record { mbuf = 1; now = 1000; padding = 0 }

abbrev exchange : Exchange
exchange = record { call = 0; first = arrival; second = arrival; third = arrival }

is_keyed : IsKeyed our_quad 0 exchange
is_keyed = record { call = refl; first = refl; second = refl; third = refl }

abbrev talk : List Line
talk = by_a 0 arrival arrival (codes "hello") ∷ by_b 0 arrival arrival (codes "good day") ∷ []

keyed_talk : AreKeyed our_quad 0 talk
keyed_talk = (refl, refl, refl, (refl, refl, refl, tt))

platform-IsAmple : IsAmple platform
platform-IsAmple = record { ether_type = refl; free = λ n. refl }

are_hosts : AreHosts our_quad idle_core.tcp.nic peer_core.tcp.nic
are_hosts = record { wired = (refl, refl); here = refl; there = refl }

room_here : HasRoom platform our_quad idle_core
room_here = record {
  place = 7;
  table = (our_quad, 7) ∷ [];
  garbage = blank;
  no_entry = refl;
  from = refl;
  added = refl;
}

room_there : HasRoom platform (flip our_quad 0) peer_core
room_there = record {
  place = 7;
  table = (flip our_quad 0, 7) ∷ [];
  garbage = blank;
  no_entry = refl;
  from = refl;
  added = refl;
}

-- The hosts with a connection at address 7.
abbrev end_of : Quad → ℕ → Connection
end_of q una = record blank {
  q = q;
  tcp_state = established;
  send = record blank.send { una = una; nxt = 1 };
  recv = record blank.recv { nxt = 1; wnd = 64240 };
  ipv4_hdr = record blank.ipv4_hdr { src_addr = q.dip; dst_addr = q.sip };
  tcp_hdr = record blank.tcp_hdr { src_port = q.dport; dst_port = q.sport; rx_win = swap_16 64240 };
}

abbrev with_end : Core Table → Quad → ℕ → Core Table
with_end s q una = record s {
  tcp = record s.tcp { rte_hash = (q, 7) ∷ [] };
  heap = store s.heap 7 (some (end_of q una));
}

abbrev here : Core Table
here = with_end idle_core our_quad 2

abbrev there : Core Table
there = with_end peer_core (flip our_quad 0) 0

in_sync : InSync platform our_quad 0 2 0 1 1 [] [] (here, there)
in_sync = record {
  end_a = record {
    place = 7;
    connection = end_of our_quad 2;
    entry = refl;
    at_p = refl;
    is_in = refl;
    addressed = (refl, refl, refl, refl, refl, refl);
    numbers = (refl, refl, refl, refl);
  };
  end_b = record {
    place = 7;
    connection = end_of (flip our_quad 0) 0;
    entry = refl;
    at_p = refl;
    is_in = refl;
    addressed = (refl, refl, refl, refl, refl, refl);
    numbers = (refl, refl, refl, refl);
  };
  hosts = are_hosts;
  shown_a = refl;
  shown_b = refl;
}

open_link-InSync_example :
    Returns
      (open_link platform our_quad exchange idle_core peer_core)
      (InSync platform our_quad 0 2 0 1 1 [] [])
open_link-InSync_example =
    open_link-InSync platform platform-IsDpdk platform-IsAmple our_quad 0 exchange idle_core
      peer_core is_keyed are_hosts room_here room_there

session-IsOver_example :
    Returns
      (session platform our_quad exchange talk exchange idle_core peer_core)
      (IsOver platform our_quad 0 (codes "good day\n") (codes "hello\n"))
session-IsOver_example =
    session-IsOver platform platform-IsDpdk platform-IsAmple our_quad 0 exchange talk exchange
      idle_core peer_core is_keyed keyed_talk is_keyed are_hosts room_here room_there
      (omega arith, omega arith, (omega arith, omega arith, tt)) (omega arith) (omega arith)

converse-InSync_example :
    Returns
      (converse platform our_quad talk here there)
      (InSync platform our_quad 0 2 0 6 9 (codes "good day\n") (codes "hello\n"))
converse-InSync_example =
    converse-InSync platform platform-IsDpdk platform-IsAmple our_quad 0 talk here there 2 0 1 1 []
      [] keyed_talk in_sync (omega arith, omega arith, (omega arith, omega arith, tt)) (omega arith)
      (omega arith)

frames-session :
    frames (session platform our_quad exchange talk exchange idle_core peer_core) ≡ some (6, 4)
unfolding session converse open_link say close_link active_connect connect_unless connect_at
    open_and_send tcp_tx_packets rx_packet init_connect receive_segment receive_at handle_tcp_listen
    listen_at init_listen dispatch_at dispatch has_flag clear_flag handle_tcp_syn_sent active_close
    active_send_data close_session send_session set_flag acks_sent count_connection
    handle_tcp_establish handle_tcp_fin_wait1 handle_tcp_last_ack handle_tcp_syn_recv reply
    take_syn_ack finish_last_ack segment_check is_between_wrapped after_send fill_headers send_p
    print_data
frames-session = refl

end-IsSound : IsSound (end_of our_quad 2)
end-IsSound = record {
  live = tt;
  una_range = omega arith;
  nxt_range = omega arith;
  expected_range = omega arith;
  window_range = omega arith;
  payload_room = refl;
}

here-IsWellFormed : IsWellFormed platform here
here-IsWellFormed q p found = elim (Bool-cases (quad_eq our_quad q)) [
  | inl same ↦
      let at_p : some 7 ≡ some p = rw (same, find) at found in
      let is_seven : 7 ≡ p = ground (arith, at_p) in
      (
        end_of our_quad 2,
        subst (λ r. here.heap r ≡ some (end_of our_quad 2)) is_seven refl,
        (quad_eq_iff our_quad q).0 same,
        end-IsSound,
      )
  | inr other ↦ absurd (ground (arith, found, other))
]

dump_hashtable-Lists_example :
    Returns (dump_hashtable platform here) (Lists platform here.heap ((our_quad, 7) ∷ []))
dump_hashtable-Lists_example = dump_hashtable-Lists platform platform-IsDpdk here here-IsWellFormed

dump_text :
    dump_hashtable platform here
    ≡ ok (
        codes
          "connection src_ip src_port dst_ip dst_port\n192.168.11.111 80 192.168.0.1 2000\nState: TCP_ESTABLISHED\n")
unfolding dump_hashtable dump_entries dump_at dump_connection decimal
dump_text = refl
