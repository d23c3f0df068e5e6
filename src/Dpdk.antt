-- ===== src/Dpdk.antt =====
-- DPDK as the program sees it: the functions that src/ calls and does not define, and what their
-- documentation promises. `T` is the type of `struct rte_hash`.
use tcp_dpdk.Base.{
  ℕ, ◌≤◌, ◌<◌, ◌≡◌, Bool, List, Option, none, some, u16_mod, u32_mod, if◌then◌else◌, length, All,
}
use tcp_dpdk.Connection.{Quad, quad_eq, Ipv4Hdr, TcpHdr, Connection, Heap}

pub record Dpdk (T : Type 0) : Type 0 where
  -- `none` is -ENOENT
  pub hash_lookup_data : T → Quad → Option ℕ
  -- `none` is -ENOSPC
  pub hash_add_key_data : T → Quad → ℕ → Option T
  pub hash_del_key : T → Quad → T
  -- the entries, in the order in which `rte_hash_iterate` gives them
  pub hash_iterate : T → List (Quad × ℕ)
  pub cpu_to_be_16 : ℕ → ℕ
  pub be_to_cpu_16 : ℕ → ℕ
  pub cpu_to_be_32 : ℕ → ℕ
  pub be_to_cpu_32 : ℕ → ℕ
  pub ipv4_cksum : Ipv4Hdr → ℕ
  -- the IPv4 header, and the bytes behind it: the TCP header and what lies behind that
  pub ipv4_udptcp_cksum : Ipv4Hdr → TcpHdr → List ℕ → ℕ
  -- a free address, and what the memory there holds; `none` is NULL
  pub malloc : Heap → Option (ℕ × Connection)
  -- whether the n-th call of rte_mbuf_raw_alloc finds a free buffer
  pub mbuf_raw_alloc : ℕ → Bool
  -- the bytes from the start of the data to the end of a buffer
  pub mbuf_room : ℕ

-- The documented behaviour. A free address is one with no object, and the memory there has the
-- size that was asked for.
pub record IsDpdk {T : Type 0} (d : Dpdk T) : Type 0 where
  pub lookup-add :
      (t u : T) (q k : Quad) (p : ℕ)
      → d.hash_add_key_data t q p ≡ some u
      → d.hash_lookup_data u k ≡ (if quad_eq q k then some p else d.hash_lookup_data t k)
  pub lookup-del :
      (t : T) (q k : Quad)
      → d.hash_lookup_data (d.hash_del_key t q) k
        ≡ (if quad_eq q k then none else d.hash_lookup_data t k)
  pub iterate-lookup : (t : T) → All (λ e. d.hash_lookup_data t e.0 ≡ some e.1) (d.hash_iterate t)
  pub be_to_cpu_16-lt : (n : ℕ) → d.be_to_cpu_16 n < u16_mod
  pub be_to_cpu_32-lt : (n : ℕ) → d.be_to_cpu_32 n < u32_mod
  pub be_to_cpu_16-cpu_to_be_16 : (n : ℕ) → n < u16_mod → d.be_to_cpu_16 (d.cpu_to_be_16 n) ≡ n
  pub be_to_cpu_32-cpu_to_be_32 : (n : ℕ) → n < u32_mod → d.be_to_cpu_32 (d.cpu_to_be_32 n) ≡ n
  pub malloc_fresh : (h : Heap) (p : ℕ) (c : Connection) → d.malloc h ≡ some (p, c) → h p ≡ none
  pub malloc_size :
      (h : Heap) (p : ℕ) (c : Connection) → d.malloc h ≡ some (p, c) → length c.payload ≡ 100
  pub room_for_headers : 154 ≤ d.mbuf_room
