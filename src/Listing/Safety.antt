-- ===== src/Listing/Safety.antt =====
-- A listing of well-formed cores.
use tcp_dpdk.Base.{ℕ, ◌≡◌, refl, List, [], ◌∷◌, ◌++◌, some, All, Returns, bind-Within}
use tcp_dpdk.Connection.{Connection, Quad, Heap}
use tcp_dpdk.Dpdk.{Dpdk, IsDpdk}
use tcp_dpdk.Tcp.{Core}
use tcp_dpdk.Invariant.{IsWellFormed, Holds}
use tcp_dpdk.Listing.{dump_connection, dump_at, dump_entries, dump_hashtable, dump_cores}

module _ {T : Type 0} (d : Dpdk T) where
  -- The text is that of the connections of the entries, one after the other.
  abbrev pub Lists : Heap → List (Quad × ℕ) → List ℕ → Type 0
  Lists h [] text = text ≡ []
  Lists h (e ∷ es) text =
      (c : Connection) × (more : List ℕ) × (h e.1 ≡ some c)
      × (c.q ≡ e.0)
      × (text ≡ dump_connection d c ++ more)
      × Lists h es more

  dump_entries-Lists :
      (h : Heap) (es : List (Quad × ℕ))
      → All (λ e. Holds d h e.0 e.1) es
      → Returns (dump_entries d h es) (Lists h es)
  unfolding dump_entries dump_at
  dump_entries-Lists h [] held = refl
  dump_entries-Lists h (e ∷ es) ((c, at_p, is_q, sound), held) = rw at_p (
      bind-Within (λ x. ⊥) (dump_entries d h es) _ (Lists h es) (Lists h (e ∷ es))
        (dump_entries-Lists h es held) (λ more lists. (c, more, at_p, is_q, refl, lists)))

  module _ (laws : IsDpdk d) (s : Core T) (wf : IsWellFormed d s) where
    found-Holds :
        (es : List (Quad × ℕ))
        → All (λ e. d.hash_lookup_data s.tcp.rte_hash e.0 ≡ some e.1) es
        → All (λ e. Holds d s.heap e.0 e.1) es
    found-Holds [] found = tt
    found-Holds (e ∷ es) (first, found) = (wf e.0 e.1 first, found-Holds es found)

    -- DPDK is taken to behave as documented. Of a well-formed core the dump of its table returns, and
    -- it is the text of the entries in the order of the iteration, where that of an entry is
    -- `dump_connection` of the connection at its address, which is the connection of its quad.
    pub dump_hashtable-Lists :
        Returns (dump_hashtable d s) (Lists s.heap (d.hash_iterate s.tcp.rte_hash))
    unfolding dump_hashtable
    dump_hashtable-Lists =
        dump_entries-Lists s.heap (d.hash_iterate s.tcp.rte_hash)
          (found-Holds (d.hash_iterate s.tcp.rte_hash) (laws.iterate-lookup s.tcp.rte_hash))

  -- No core of the listing has a stale pointer.
  pub dump_cores-Returns :
      (laws : IsDpdk d) (ss : List (Core T))
      → All (IsWellFormed d) ss
      → Returns (dump_cores d ss) (λ text. Unit {0})
  unfolding dump_cores
  dump_cores-Returns laws [] wf = tt
  dump_cores-Returns laws (s ∷ ss) (first, wf) =
      bind-Within (λ x. ⊥) (dump_hashtable d s) _ (Lists s.heap (d.hash_iterate s.tcp.rte_hash))
        (λ text. Unit {0}) (dump_hashtable-Lists laws s first)
        (λ text lists.
          bind-Within (λ x. ⊥) (dump_cores d ss) _ (λ more. Unit {0}) (λ more. Unit {0})
            (dump_cores-Returns laws ss wf) (λ more u. tt))
