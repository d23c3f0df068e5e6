-- ===== src/Tests/Parsing.antt =====
-- The readers of src/cli/parser.c at concrete inputs.
use tcp_dpdk.Base.{◌↔◌, ◌≡◌, refl, [], ◌∷◌, some, fault, overrun, codes, arith, decimal, Returns}
use tcp_dpdk.Parser.Numbers.{value, parser_read_arg_bool}
use tcp_dpdk.Parser.Numbers.Switches.{Says}
use tcp_dpdk.Parser.Numbers.Switches.Exact.{parser_read_arg_bool_iff}
use tcp_dpdk.Parser.Numbers.{value, parser_read_uint64}
use tcp_dpdk.Parser.Numbers.Suffixes.{small_kilo, parser_read_uint64-decimal}
use tcp_dpdk.Parser.Hex.{parsed, parse_hex_string, parse_hex_string-hex}
use tcp_dpdk.Parser.Address.{inet_pton4}
use tcp_dpdk.Parser.Address.Exact.{inet_pton4-dotted_quad}
use tcp_dpdk.Parser.Ethernet.{parse_mac_addr, parse_mac_addr-mac_text}
use tcp_dpdk.Parser.Address6.{inet_pton6}
use tcp_dpdk.Parser.Address6.Bounds.{IsWhole, inet_pton6-IsWhole}
use tcp_dpdk.Parser.CpuCore.{parse_cpu_core, nothing_parsed}
use tcp_dpdk.Parser.CpuCore.Digits.{parse_cpu_core-digits}
use tcp_dpdk.Parser.CpuCore.Fuel.{Runs, parse_cpu_core-Runs}

parser_read_uint64-decimal_example : parser_read_uint64 (codes "  12k ") ≡ value 12_288
unfolding decimal
parser_read_uint64-decimal_example =
    parser_read_uint64-decimal (codes "  ") (codes " ") 12 small_kilo (omega arith)
      (refl, (refl, tt)) (refl, tt)

parse_hex_string-hex_example : parse_hex_string (codes "0a1b") 16 ≡ parsed (10 ∷ 27 ∷ [])
parse_hex_string-hex_example =
    parse_hex_string-hex (10 ∷ 27 ∷ []) 16 (omega arith, (omega arith, tt)) (omega arith)
      (omega arith) (omega arith)

parse_mac_addr-mac_text_example :
    parse_mac_addr (codes "00:1b:21:ff:0a:7e") ≡ some (0 ∷ 27 ∷ 33 ∷ 255 ∷ 10 ∷ 126 ∷ [])
parse_mac_addr-mac_text_example =
    parse_mac_addr-mac_text 0 (27 ∷ 33 ∷ 255 ∷ 10 ∷ 126 ∷ [])
      (omega arith, (omega arith, (omega arith, (omega arith, (omega arith, (omega arith, tt))))))

inet_pton6-IsWhole_example : Returns (inet_pton6 (codes "fe80::1")) IsWhole
inet_pton6-IsWhole_example = inet_pton6-IsWhole (codes "fe80::1")

parse_cpu_core-digits_example : parse_cpu_core (codes "00000001") ≡ fault overrun
parse_cpu_core-digits_example =
    parse_cpu_core-digits b'0' (codes "0000001")
      (refl, (refl, (refl, (refl, (refl, (refl, (refl, (refl, tt))))))))

parse_cpu_core-Runs_example :
    Runs nothing_parsed (codes "s1c12h") (parse_cpu_core (codes " s1c12h"))
parse_cpu_core-Runs_example = parse_cpu_core-Runs (codes " s1c12h")

inet_pton4-dotted_quad_example : inet_pton4 (codes "10.00.0.255") ≡ some (10 ∷ 0 ∷ 0 ∷ 255 ∷ [])
inet_pton4-dotted_quad_example = inet_pton4-dotted_quad (codes "10.00.0.255")

parser_read_arg_bool_iff_example :
    (parser_read_arg_bool (codes " YESoff ") ≡ value 0) ↔ Says (codes " YESoff ") 0
parser_read_arg_bool_iff_example = parser_read_arg_bool_iff (codes " YESoff ") 0
