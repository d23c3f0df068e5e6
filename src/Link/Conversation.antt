-- ===== src/Link/Conversation.antt =====
-- The lines of a conversation.
use tcp_dpdk.Base.{
  ℕ, ◌+◌, ◌≡◌, ◌<◌, refl, List, [], ◌∷◌, u32_mod, length, sym, ◌++◌, ◌∙◌, list_laws, append-nil,
  Returns-mono, Returns, bind-Within, subst, arith,
}
use tcp_dpdk.Connection.{Quad}
use tcp_dpdk.Dpdk.{Dpdk, IsDpdk}
use tcp_dpdk.Tcp.{Core}
use tcp_dpdk.Link.{
  flip, IsAmple, say, converse, Line, by_a, by_b, said_by_a, said_by_b, text_of_a, text_of_b,
  AreKeyed, AreMessages,
}
use tcp_dpdk.Link.Ends.{InSync}
use tcp_dpdk.Link.Messages.{say-InSync}

line_end :
    (log bytes text : List ℕ) → (log ++ (bytes ++ 10 ∷ [])) ++ text ≡ log ++ (bytes ++ 10 ∷ text)
line_end log bytes text = simp list_laws

module _ {T : Type 0} (d : Dpdk T) where
  swapped :
      (q : Quad) (padding una_a una_b x y : ℕ) (log_a log_b : List ℕ) (a b : Core T)
      → InSync d q padding una_a una_b x y log_a log_b (a, b)
      → InSync d (flip q padding) q.padding una_b una_a y x log_b log_a (b, a)
  swapped q padding una_a una_b x y log_a log_b a b h = record {
    end_a = h.end_b;
    end_b = h.end_a;
    hosts = record {
      wired = (h.hosts.wired.1, h.hosts.wired.0);
      here = h.hosts.there;
      there = h.hosts.here;
    };
    shown_a = h.shown_b;
    shown_b = h.shown_a;
  }

  -- The same, with other names for the numbers and the logs.
  again :
      {q : Quad} {padding una_a una_b x y x' y' : ℕ} {log_a log_b log_a' log_b' : List ℕ}
      {r : Core T × Core T}
      → x ≡ x'
      → y ≡ y'
      → log_a ≡ log_a'
      → log_b ≡ log_b'
      → InSync d q padding una_a una_b x y log_a log_b r
      → InSync d q padding una_a una_b x' y' log_a' log_b' r
  again {q} {padding} {una_a} {una_b} {x} {y} {x'} {y'} {log_a} {log_b} {log_a'} {log_b'} {r} e f g
        k h =
      subst (λ n. InSync d q padding una_a una_b n y' log_a' log_b' r) e
        (subst (λ n. InSync d q padding una_a una_b x n log_a' log_b' r) f
          (record {
            end_a = h.end_a;
            end_b = h.end_b;
            hosts = h.hosts;
            shown_a = h.shown_a ∙ g;
            shown_b = h.shown_b ∙ k;
          }))

  module _ (laws : IsDpdk d) (ample : IsAmple d) where
    -- DPDK is taken to behave as documented, with a buffer always free, and the padding bytes of
    -- `struct quad`, which no code sets, to be those of the key in every lookup of a host, for
    -- commands and for packets. Two hosts have the two ends of an established connection, where
    -- each expects the number that the other one sends next. Messages of 1 to 100 bytes, from
    -- either side in any order, and their acknowledgements are handled. The hosts then have the two
    -- ends again: each number is as many higher as that side has sent bytes, as long as none wraps,
    -- and `print_data` has written the messages of the other side in order on each host.
    pub converse-InSync :
        (q : Quad) (padding : ℕ) (lines : List Line) (a b : Core T) (una_a una_b x y : ℕ)
        (log_a log_b : List ℕ)
        → AreKeyed q padding lines
        → InSync d q padding una_a una_b x y log_a log_b (a, b)
        → AreMessages lines
        → x + said_by_a lines < u32_mod
        → y + said_by_b lines < u32_mod
        → Returns (converse d q lines a b) (
            InSync d q padding una_a una_b
              (x + said_by_a lines)
              (y + said_by_b lines)
              (log_a ++ text_of_b lines)
              (log_b ++ text_of_a lines))
    unfolding converse say
    converse-InSync q padding [] a b una_a una_b x y log_a log_b keyed h messages range_a range_b =
        again (omega arith) (omega arith) (sym (append-nil log_a)) (sym (append-nil log_b)) h
    converse-InSync q padding (by_a p i j bytes ∷ lines) a b una_a una_b x y log_a log_b
          (at_call, at_b, at_a, keyed) h (full, short, messages) range_a range_b =
        bind-Within (λ e. ⊥) (say d q p i j bytes a b) _ _ _
          (say-InSync d laws ample q padding p i j bytes a b una_a una_b x y log_a log_b at_call
            at_b at_a h full short (omega (arith, range_a)) (omega (arith, range_b)))
          (λ r sync.
            Returns-mono (converse d q lines r.0 r.1) _ _
              (λ t. again (omega arith) refl refl (line_end log_b bytes (text_of_a lines)))
              (converse-InSync q padding lines r.0 r.1 una_a una_b (x + length bytes) y log_a
                (log_b ++ (bytes ++ 10 ∷ [])) keyed sync messages (omega (arith, range_a)) range_b))
    converse-InSync q padding (by_b p i j bytes ∷ lines) a b una_a una_b x y log_a log_b
          (at_call, at_a, at_b, keyed) h (full, short, messages) range_a range_b =
        bind-Within (λ e. ⊥) (say d (flip q p) p i j bytes b a) _ _ _
          (say-InSync d laws ample (flip q padding) q.padding p i j bytes b a una_b una_a y x log_b
            log_a at_call at_a at_b (swapped q padding una_a una_b x y log_a log_b a b h) full short
            (omega (arith, range_b)) (omega (arith, range_a)))
          (λ r sync.
            Returns-mono (converse d q lines r.1 r.0) _ _
              (λ t. again refl (omega arith) (line_end log_a bytes (text_of_b lines)) refl)
              (converse-InSync q padding lines r.1 r.0 una_a una_b x (y + length bytes)
                (log_a ++ (bytes ++ 10 ∷ [])) log_b keyed
                (swapped (flip q padding) q.padding una_b una_a (y + length bytes) x log_b
                  (log_a ++ (bytes ++ 10 ∷ [])) r.0 r.1 sync)
                messages range_a (omega (arith, range_b))))
