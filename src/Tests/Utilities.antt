-- ===== src/Tests/Utilities.antt =====
-- The helpers of src/utility/utility.c at concrete inputs.
use tcp_dpdk.Base.{◌≡◌, refl, [], ◌∷◌, ◌++◌, none, codes, replicate, arith}
use tcp_dpdk.Parser.Numbers.{strtoul_16}
use tcp_dpdk.Utility.{string_to_mac}
use tcp_dpdk.Utility.Dump.{dump_hex}
use tcp_dpdk.Utility.Dump.Whole.{dump_hex-rows}

dump_hex-rows_example :
    dump_hex (replicate 17 7) (codes "GET /index.html HTTP/1.1\n")
    ≡ codes "47 45 54 20 2F 69 6E 64  65 78 2E 68 74 6D 6C 20  |  GET /index.html  \n"
      ++ codes "48 54 54 50 2F 31 2E 31  0A                       |  HTTP/1.1. \n"
dump_hex-rows_example =
    dump_hex-rows (replicate 17 7) (codes "GET /index.html " ∷ []) (codes "HTTP/1.1\n") refl
      (refl, tt) (omega arith)

-- A prefix without a digit is no byte, and a short text no address.
bare_prefix : string_to_mac (codes "90:eb:1b:9f:36:0x") ≡ none
unfolding string_to_mac strtoul_16
bare_prefix = refl
