-- ===== src/Port/Plan.antt =====
-- How far `port_init` comes.
use tcp_dpdk.Base.{
  ℕ, zero, suc, ◌+◌, ◌%◌, ◌≡◌, ◌≢◌, ◌≤◌, ◌<◌, All, ◌⊎◌, inl, inr, refl, ap, Bool, true, false,
  Bool-cases, not, List, [], ◌∷◌, ◌++◌, arith, if◌then◌else◌,
}
use tcp_dpdk.Port.{
  Call, configure, adjust, start, promiscuous, rx_queue, tx_queue, Device, is_negative, is_error,
  perform, queues, port_init,
}

-- The queues from `q` on, `left` of them.
abbrev pub all_queues : (ℕ → Call) → ℕ → ℕ → List Call → List Call
all_queues call zero q more = more
all_queues call (suc left) q more = call q ∷ all_queues call left (q + 1) more

-- Everything that is to be done: the device, its queues in each direction, and the start.
abbrev pub plan : ℕ → Bool → List Call
plan rings fast_free =
    configure rings fast_free
    ∷ adjust
    ∷ all_queues rx_queue rings 0
        (all_queues (λ q. tx_queue q fast_free) rings 0 (start ∷ promiscuous ∷ []))

-- A result that counts as an error: any but 0 for the device, a negative `int` for a queue and for
-- the start. That of the last call is not looked at.
abbrev pub Fails : Call → ℕ → Type 0
Fails (configure rings fast_free) r = r ≢ 0
Fails adjust r = r ≢ 0
Fails start r = 0x8000_0000 ≤ r
Fails promiscuous r = ⊥
Fails (rx_queue q) r = 0x8000_0000 ≤ r
Fails (tx_queue q fast_free) r = 0x8000_0000 ≤ r

-- One that does not.
abbrev pub Succeeds : Call → ℕ → Type 0
Succeeds (configure rings fast_free) r = r ≡ 0
Succeeds adjust r = r ≡ 0
Succeeds start r = r < 0x8000_0000
Succeeds promiscuous r = Unit
Succeeds (rx_queue q) r = r < 0x8000_0000
Succeeds (tx_queue q fast_free) r = r < 0x8000_0000

error_nonzero : (n : ℕ) → is_error n ≡ true → n ≢ 0
error_nonzero n h z = absurd (ground (arith, h, z))

no_error_zero : (n : ℕ) → is_error n ≡ false → n ≡ 0
no_error_zero n h = ground (arith, h)

negative_large : (n : ℕ) → is_negative n ≡ true → 0x8000_0000 ≤ n
negative_large n h = ground (arith, h)

not_negative_small : (n : ℕ) → is_negative n ≡ false → n < 0x8000_0000
not_negative_small n h = ground (arith, h)

module _ (e : Device) where
  -- The calls end with one that failed, whose result is returned; those in front of it succeeded.
  pub record Stopped (all calls : List Call) (retval : ℕ) : Type 0 where
    pub before : List Call
    pub failed : Call
    pub after : List Call
    pub planned : all ≡ before ++ failed ∷ after
    pub made : calls ≡ before ++ failed ∷ []
    pub returned : retval ≡ e.result failed
    pub fine : All (λ c. Succeeds c (e.result c)) before
    pub bad : Fails failed (e.result failed)

  -- All of the plan was carried out with success, and the result is 0; or it stopped.
  abbrev pub Follows : List Call → List Call × ℕ → Type 0
  Follows all r =
      ((r.0 ≡ all) × (r.1 ≡ 0) × All (λ c. Succeeds c (e.result c)) all) ⊎ Stopped all r.0 r.1

  extend :
      (call : Call) (all : List Call) (r : List Call × ℕ)
      → Succeeds call (e.result call)
      → Follows all r
      → Follows (call ∷ all) (call ∷ r.0, r.1)
  extend call all r good (inl done) = inl (ap (λ l. call ∷ l) done.0, done.1, (good, done.2))
  extend call all r good (inr stopped) = inr (record {
    before = call ∷ stopped.before;
    failed = stopped.failed;
    after = stopped.after;
    planned = ap (λ l. call ∷ l) stopped.planned;
    made = ap (λ l. call ∷ l) stopped.made;
    returned = stopped.returned;
    fine = (good, stopped.fine);
    bad = stopped.bad;
  })

  perform-Follows :
      (call : Call) (bad : ℕ → Bool) (all : List Call) (r : List Call × ℕ)
      → (bad (e.result call) ≡ true → Fails call (e.result call))
      → (bad (e.result call) ≡ false → Succeeds call (e.result call))
      → Follows all r
      → Follows (call ∷ all) (perform e call bad r)
  perform-Follows call bad all r is_bad is_good follows = elim (Bool-cases (bad (e.result call))) [
    | inl fails ↦ rw fails (
        inr (record {
          before = [];
          failed = call;
          after = all;
          planned = refl;
          made = refl;
          returned = refl;
          fine = tt;
          bad = is_bad fails;
        }))
    | inr fine ↦ rw fine (extend call all r (is_good fine) follows)
  ]

  queues-Follows :
      (call : ℕ → Call) (left q : ℕ) (all : List Call) (r : List Call × ℕ)
      → ((n : ℕ) → 0x8000_0000 ≤ e.result (call n) → Fails (call n) (e.result (call n)))
      → ((n : ℕ) → e.result (call n) < 0x8000_0000 → Succeeds (call n) (e.result (call n)))
      → Follows all r
      → Follows (all_queues call left q all) (queues e call left q r)
  queues-Follows call zero q all r is_bad is_good follows = follows
  queues-Follows call (suc left) q all r is_bad is_good follows =
      perform-Follows (call q) is_negative (all_queues call left (q + 1) all)
        (queues e call left (q + 1) r) (λ h. is_bad q (negative_large _ h))
        (λ h. is_good q (not_negative_small _ h))
        (queues-Follows call left (q + 1) all r is_bad is_good follows)

  valid-Follows :
      (valid : Bool) (all : List Call) (r : List Call × ℕ)
      → valid ≡ true
      → Follows all r
      → Follows all (if not valid then ([], 0xffff_ffff) else r)
  valid-Follows true all r is_valid follows = follows
  valid-Follows false all r is_valid follows = absurd (ground (arith, is_valid))

  -- With a port that is valid, `port_init` makes the calls that set up the device and one receive
  -- and one transmit queue for each core, their number cut to 16 bits, in order. Either all of them
  -- are made, each of them but the last, whose result is not looked at, succeeds, and it returns 0;
  -- or they end with one that fails, those in front of it succeed, and it returns the result of
  -- that one. The set-up of the device and the adjustment of the rings fail with any result but 0,
  -- a queue and the start with a negative one.
  pub port_init-Follows :
      (nb_core : ℕ)
      → e.is_valid_port ≡ true
      → Follows (plan (nb_core % 0x1_0000) e.fast_free) (port_init e nb_core)
  unfolding port_init
  port_init-Follows nb_core valid =
      let rings = nb_core % 0x1_0000 in
      let last : Follows (start ∷ promiscuous ∷ [])
          (perform e start is_negative (promiscuous ∷ [], 0)) =
        perform-Follows start is_negative (promiscuous ∷ []) (promiscuous ∷ [], 0)
          (negative_large (e.result start)) (not_negative_small (e.result start))
          (inl (refl, refl, (tt, tt))) in
      valid-Follows e.is_valid_port _ _ valid (
        perform-Follows (configure rings e.fast_free) is_error _ _ (error_nonzero _)
          (no_error_zero _)
          (perform-Follows adjust is_error _ _ (error_nonzero _) (no_error_zero _) (
            queues-Follows rx_queue rings 0 _ _ (λ n h. h) (λ n h. h)
              (queues-Follows (λ q. tx_queue q e.fast_free) rings 0 _ _ (λ n h. h) (λ n h. h)
                last))))
