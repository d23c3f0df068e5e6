-- ===== src/Port.antt =====
-- `port_init` of src/config/config.c: the calls that set up the device, in order, up to the first
-- one that fails. An `int` is the bit pattern of its 32 bits.
pub mod Plan
use tcp_dpdk.Base.{
  ℕ, zero, suc, ◌+◌, ◌%◌, ◌==◌, Bool, true, false, not, List, [], ◌∷◌, leb, if◌then◌else◌,
}

-- The calls whose result is looked at, and the last one: with the number of rings in each direction
-- and whether FAST_FREE is asked for, or with the queue.
pub data Call : Type 0 where
  configure : ℕ → Bool → Call
  adjust start promiscuous : Call
  rx_queue : ℕ → Call
  tx_queue : ℕ → Bool → Call

-- What the device can do, and what the calls return.
pub record Device : Type 0 where
  pub fast_free : Bool
  pub is_valid_port : Bool
  pub result : Call → ℕ

abbrev pub is_negative : ℕ → Bool
is_negative n = leb 0x8000_0000 n

abbrev pub is_error : ℕ → Bool
is_error n = not (n == 0)

module _ (e : Device) where
  -- A call, and what follows it unless its result is bad.
  abbrev pub perform : Call → (ℕ → Bool) → List Call × ℕ → List Call × ℕ
  perform call bad (calls, retval) =
      if bad (e.result call) then (call ∷ [], e.result call) else (call ∷ calls, retval)

  -- The loop over the queues from `q` on, `left` of them.
  abbrev pub queues : (ℕ → Call) → ℕ → ℕ → List Call × ℕ → List Call × ℕ
  queues call zero q more = more
  queues call (suc left) q more = perform (call q) is_negative (queues call left (q + 1) more)

  -- The calls, and the result.
  unfoldable pub port_init : ℕ → List Call × ℕ
  port_init nb_core =
      let rings = nb_core % 0x1_0000 in
      if not e.is_valid_port
      then ([], 0xffff_ffff)
      else perform (configure rings e.fast_free) is_error (
          perform adjust is_error (
            queues rx_queue rings 0 (
              queues (λ q. tx_queue q e.fast_free) rings 0
                (perform start is_negative (promiscuous ∷ [], 0)))))
