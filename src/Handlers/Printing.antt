-- ===== src/Handlers/Printing.antt =====
-- The data that reach the console.
use tcp_dpdk.Base.{
  ℕ, ◌≡◌, ◌≤◌, ◌∷◌, ◌++◌, [], List, true, take, length, leb, int_to_size, ok, refl, arith,
}
use tcp_dpdk.Tcp.{Tcp}
use tcp_dpdk.Handlers.{print_data, printed_count}

-- The core once `size` bytes of data are printed.
abbrev pub with_printed : {T : Type 0} → Tcp T → List ℕ → ℕ → Tcp T
with_printed tcp bytes size = record tcp { printed = tcp.printed ++ (take size bytes ++ 10 ∷ []) }

printed_count_lem : (bytes : List ℕ) (size : ℕ) → int_to_size size ≤ 100 → printed_count size ≡ size
printed_count_lem bytes size h = ground arith

-- Data that lie in the buffer are printed.
pub print_data-ok :
    {T : Type 0} (tcp : Tcp T) (bytes : List ℕ) (size : ℕ)
    → int_to_size size ≤ length bytes
    → int_to_size size ≤ 100
    → print_data tcp bytes size ≡ ok (with_printed tcp bytes size)
unfolding print_data
print_data-ok tcp bytes size there short =
    let fits : leb (printed_count size) (length bytes) ≡ true = ground arith in
    rw (fits, printed_count_lem bytes size short) refl
