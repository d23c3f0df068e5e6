-- ===== src/Tests/Platform.antt =====
-- A platform to run the model on: a table of at most 128 keys in the order they came, little-endian
-- numbers, memory at the first free address below 256, and buffers that never run out.
use Prim.Native.Nat.{ℕ, zero, suc}
use tcp_dpdk.Base.{
  ◌+◌, ◌*◌, ◌/◌, ◌%◌, ◌≡◌, true, false, List, [], ◌∷◌, Option, none, some, length, ltb, replicate,
  if◌then◌else◌, arith, Bool-cases, All, refl, ap, ◌∙◌, ==_iff, ◌==◌, inl, inr,
}
use tcp_dpdk.Connection.{Connection, Quad, quad_eq, Heap, Ipv4Hdr, TcpHdr, listen}
use tcp_dpdk.Dpdk.{Dpdk, IsDpdk}
use tcp_dpdk.Invariant.{quad_eq_iff}

abbrev pub Table : Type 0
Table = List (Quad × ℕ)

abbrev pub find : Table → Quad → Option ℕ
find [] q = none
find ((k, p) ∷ t) q = if quad_eq k q then some p else find t q

abbrev pub add : Table → Quad → ℕ → Option Table
add t q p = if ltb (length t) 128 then some ((q, p) ∷ t) else none

abbrev pub del : Table → Quad → Table
del [] q = []
del ((k, p) ∷ t) q = if quad_eq k q then del t q else (k, p) ∷ del t q

-- The entries that a lookup finds.
abbrev keep_entry : Option ℕ → Quad × ℕ → Table → Table
keep_entry none e rest = rest
keep_entry (some r) e rest = if r == e.1 then e ∷ rest else rest

abbrev kept : Table → Table → Table
kept t [] = []
kept t (e ∷ es) = keep_entry (find t e.0) e (kept t es)

abbrev pub swap_16 : ℕ → ℕ
swap_16 n = n % 256 * 256 + n / 256 % 256

abbrev pub swap_32 : ℕ → ℕ
swap_32 n = swap_16 (n % 0x1_0000) * 0x1_0000 + swap_16 (n / 0x1_0000 % 0x1_0000)

abbrev pub zero_ip : Ipv4Hdr
zero_ip = record {
  version_ihl = 0;
  type_of_service = 0;
  total_length = 0;
  packet_id = 0;
  fragment_offset = 0;
  time_to_live = 0;
  next_proto_id = 0;
  hdr_checksum = 0;
  src_addr = 0;
  dst_addr = 0;
}

abbrev pub zero_tcp : TcpHdr
zero_tcp = record {
  src_port = 0;
  dst_port = 0;
  sent_seq = 0;
  recv_ack = 0;
  data_off = 0;
  tcp_flags = 0;
  rx_win = 0;
  cksum = 0;
  tcp_urp = 0;
}

abbrev pub zero_quad : Quad
zero_quad = record { sip = 0; sport = 0; dip = 0; dport = 0; padding = 0 }

abbrev pub blank : Connection
blank = record {
  q = zero_quad;
  tcp_state = listen;
  send = record { una = 0; nxt = 0; wnd = 0; up = false; wl1 = 0; wl2 = 0; iss = 0 };
  recv = record { nxt = 0; wnd = 0; up = false; irs = 0 };
  ipv4_hdr = zero_ip;
  tcp_hdr = zero_tcp;
  payload = replicate 100 0;
}

-- A free address of the heap below a bound.
abbrev free_below : Heap → ℕ → Option ℕ
free_below h zero = none
free_below h (suc n) = elim (h n) [ none ↦ some n | some c ↦ free_below h n ]

abbrev pub malloc_below : Heap → Option (ℕ × Connection)
malloc_below h = elim (free_below h 8) [ none ↦ none | some p ↦ some (p, blank) ]

abbrev pub platform : Dpdk Table
platform = record {
  hash_lookup_data = find;
  hash_add_key_data = add;
  hash_del_key = del;
  hash_iterate = λ t. kept t t;
  cpu_to_be_16 = swap_16;
  be_to_cpu_16 = swap_16;
  cpu_to_be_32 = swap_32;
  be_to_cpu_32 = swap_32;
  ipv4_cksum = λ ip. 0;
  ipv4_udptcp_cksum = λ ip th payload. 0;
  malloc = malloc_below;
  mbuf_raw_alloc = λ n. true;
  mbuf_room = 2048;
}

find-del : (t : Table) (q k : Quad) → find (del t q) k ≡ (if quad_eq q k then none else find t k)
find-del [] q k = ground arith
find-del ((j, p) ∷ t) q k = elim (Bool-cases (quad_eq j q)) [
  | inl e ↦ rw e (ground (arith, find-del t q k, quad_eq_iff j q))
  | inr e ↦ rw e (ground (arith, find-del t q k, quad_eq_iff j k, quad_eq_iff q k, quad_eq_iff j q))
]

free_below-free : (h : Heap) (n p : ℕ) → free_below h n ≡ some p → h p ≡ none
free_below-free h zero p e = ground arith
free_below-free h (suc n) p e = ground (arith, free_below-free h n p)

keep_entry-found :
    (t : Table) (o : Option ℕ) (e : Quad × ℕ) (rest : Table)
    → find t e.0 ≡ o
    → All (λ k. find t k.0 ≡ some k.1) rest
    → All (λ k. find t k.0 ≡ some k.1) (keep_entry o e rest)
keep_entry-found t none e rest found h = h
keep_entry-found t (some r) e rest found h = elim (Bool-cases (r == e.1)) [
  | inl same ↦ rw (same, keep_entry) (found ∙ ap some ((==_iff r e.1).0 same), h)
  | inr other ↦ rw (other, keep_entry) h
]

kept-found : (t es : Table) → All (λ e. find t e.0 ≡ some e.1) (kept t es)
kept-found t [] = tt
kept-found t (e ∷ es) = keep_entry-found t (find t e.0) e (kept t es) refl (kept-found t es)

pub platform-IsDpdk : IsDpdk platform
platform-IsDpdk = record {
  lookup-add = λ t u q k p e. ground arith;
  lookup-del = find-del;
  iterate-lookup = λ t. kept-found t t;
  be_to_cpu_16-lt = λ n. omega arith;
  be_to_cpu_32-lt = λ n. omega arith;
  be_to_cpu_16-cpu_to_be_16 = λ n h. omega arith;
  be_to_cpu_32-cpu_to_be_32 = λ n h. omega arith;
  malloc_fresh = λ h p c e. ground (arith, free_below-free h 8 p);
  malloc_size = λ h p c e. ground arith;
  room_for_headers = omega arith;
}
