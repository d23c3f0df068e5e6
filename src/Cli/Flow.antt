-- ===== src/Cli/Flow.antt =====
-- The loop of `cli_process` over the cores.
use tcp_dpdk.Base.{
  ℕ, ◌≡◌, refl, ap, ◌⊎◌, inl, inr, List, [], ◌∷◌, ◌++◌, none, some, Outcome, ok, fault, ◌>>=◌,
  Option-cases, All,
}
use tcp_dpdk.Connection.{Quad}
use tcp_dpdk.Dpdk.{Dpdk}
use tcp_dpdk.Tcp.{Core}
use tcp_dpdk.Cli.{at_flow}

module _ {T : Type 0} (d : Dpdk T) (q : Quad) where
  abbrev pub Lacks : Core T → Type 0
  Lacks s = d.hash_lookup_data s.tcp.rte_hash q ≡ none

  -- The cores before the one that has the flow, that core, those behind it, and the connection.
  pub record Hit (ss : List (Core T)) : Type 0 where
    pub before : List (Core T)
    pub at : Core T
    pub behind : List (Core T)
    pub address : ℕ
    pub parts : ss ≡ before ++ at ∷ behind
    pub first : All Lacks before
    pub found : d.hash_lookup_data at.tcp.rte_hash q ≡ some address

  abbrev Called : (Core T → ℕ → Outcome (Core T)) → List (Core T) → Type 0
  Called call ss =
      (All Lacks ss × (at_flow d q call ss ≡ ok ss))
      ⊎ ((h : Hit ss) × (at_flow d q call ss
            ≡ (call h.at h.address >>= λ core. ok (h.before ++ core ∷ h.behind))))

  bind-ok_cons :
      (s : Core T) (m : Outcome (Core T)) (f : Core T → List (Core T))
      → ((m >>= λ a. ok (f a)) >>= λ ss. ok (s ∷ ss)) ≡ (m >>= λ a. ok (s ∷ f a))
  bind-ok_cons s (ok a) f = refl
  bind-ok_cons s (fault e) f = refl

  Called-cons :
      (call : Core T → ℕ → Outcome (Core T)) (s : Core T) (ss : List (Core T))
      → Lacks s
      → Called call ss
      → Called call (s ∷ ss)
  unfolding at_flow
  Called-cons call s ss lacks (inl (none_has, same)) =
      inl ((lacks, none_has), rw (lacks, at_flow) (rw same refl))
  Called-cons call s ss lacks (inr (h, same)) = inr (
    record {
      before = s ∷ h.before;
      at = h.at;
      behind = h.behind;
      address = h.address;
      parts = ap (λ l. s ∷ l) h.parts;
      first = (lacks, h.first);
      found = h.found;
    },
    rw (lacks, at_flow)
        (rw same (bind-ok_cons s (call h.at h.address) (λ core. h.before ++ core ∷ h.behind))),
  )

  -- Either no core has the flow, and nothing is called and nothing changes; or the call is made for
  -- the first core that has it, with the address in its table, and its outcome takes the place of
  -- that core, the others staying as they are.
  pub at_flow_cases :
      (call : Core T → ℕ → Outcome (Core T)) (ss : List (Core T))
      → (All Lacks ss × (at_flow d q call ss ≡ ok ss))
        ⊎ ((h : Hit ss) × (at_flow d q call ss
              ≡ (call h.at h.address >>= λ core. ok (h.before ++ core ∷ h.behind))))
  unfolding at_flow
  at_flow_cases call [] = inl (tt, refl)
  at_flow_cases call (s ∷ ss) = elim (Option-cases (d.hash_lookup_data s.tcp.rte_hash q)) [
    | inl lacks ↦ Called-cons call s ss lacks (at_flow_cases call ss)
    | inr (p, found) ↦ inr (
      record {
        before = [];
        at = s;
        behind = ss;
        address = p;
        parts = refl;
        first = tt;
        found = found;
      },
      rw (found, at_flow) refl,
    )
  ]
