-- ===== src/Segment.antt =====
-- `segment_check` of src/tcp/tcp.c.
pub mod Window
use tcp_dpdk.Base.{ℕ, Bool, false, true, add32, sub32, ◌==◌, if◌then◌else◌}
use tcp_dpdk.Seq.{is_between_wrapped}
use tcp_dpdk.Connection.{Connection}

unfoldable pub segment_check : Connection → ℕ → ℕ → Bool
segment_check c slen seqn =
    let wnd = add32 c.recv.nxt c.recv.wnd in
    if slen == 0
    then (if c.recv.wnd == 0
        then seqn == c.recv.nxt
        else is_between_wrapped (sub32 c.recv.nxt 1) seqn wnd)
    else (if c.recv.wnd == 0 then false else true)
