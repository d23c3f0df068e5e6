-- ===== src/Parser/Numbers/Ranges.antt =====
-- The readers for 32, 16 and 8 bits.
use tcp_dpdk.Base.{
  ℕ, ◌*◌, ◌%◌, ◌≡◌, ◌≤◌, ◌<◌, List, ◌++◌, decimal, leb, u64_mod, arith, ap, ◌∙◌, if◌then◌else◌,
}
use tcp_dpdk.Parser.Numbers.{
  Parsed, value, einval, erange, at_most, parser_read_uint64, parser_read_uint64_hex,
  parser_read_uint32, parser_read_uint16, parser_read_uint8, parser_read_uint32_hex,
  parser_read_uint16_hex, parser_read_uint8_hex,
}
use tcp_dpdk.Parser.Numbers.Suffixes.{
  Multiple, letter, factor, AreSpaces, parser_read_uint64-decimal,
}

-- A result is in the range, or it is an error.
abbrev pub IsAtMost : ℕ → Parsed → Type 0
IsAtMost max (value v) = v ≤ max
IsAtMost max _ = Unit

at_most-IsAtMost : (max : ℕ) (r : Parsed) → IsAtMost max (at_most max r)
at_most-IsAtMost max (value v) = ground arith
at_most-IsAtMost max einval = tt
at_most-IsAtMost max erange = tt

-- The number that `v` stands for, in a type that holds at most `max`.
abbrev pub fitted : ℕ → ℕ → Parsed
fitted max v = if leb v max then value v else erange

at_most-fitted : (max v : ℕ) → at_most max (value v) ≡ fitted max v
at_most-fitted max v = ground arith

-- Of the decimal notation of a number below 2 ^ 64, a unit behind it or none and white space around
-- the two, the readers for 32, 16 and 8 bits return the value that the reader for 64 bits gets, if
-- it fits their type, and otherwise -ERANGE.
pub parser_read_narrow-decimal :
    (front back : List ℕ) (n : ℕ) (m : Multiple)
    → n < u64_mod
    → AreSpaces front
    → AreSpaces back
    → (parser_read_uint32 (front ++ (decimal n ++ (letter m ++ back)))
        ≡ fitted 0xffff_ffff (n * factor m % u64_mod))
      × (parser_read_uint16 (front ++ (decimal n ++ (letter m ++ back)))
          ≡ fitted 0xffff (n * factor m % u64_mod))
      × (parser_read_uint8 (front ++ (decimal n ++ (letter m ++ back)))
          ≡ fitted 0xff (n * factor m % u64_mod))
unfolding parser_read_uint32 parser_read_uint16 parser_read_uint8
parser_read_narrow-decimal front back n m small before behind =
    let read = parser_read_uint64-decimal front back n m small before behind in
    let v = n * factor m % u64_mod in
    (
      ap (at_most 0xffff_ffff) read ∙ at_most-fitted 0xffff_ffff v,
      ap (at_most 0xffff) read ∙ at_most-fitted 0xffff v,
      ap (at_most 0xff) read ∙ at_most-fitted 0xff v,
    )

-- Whatever the text is, a number that one of the six narrower readers returns fits the type that
-- it is stored in.
pub parser_read_narrow-IsAtMost :
    (p : List ℕ)
    → IsAtMost 0xffff_ffff (parser_read_uint32 p)
      × IsAtMost 0xffff_ffff (parser_read_uint32_hex p)
      × IsAtMost 0xffff (parser_read_uint16 p)
      × IsAtMost 0xffff (parser_read_uint16_hex p)
      × IsAtMost 0xff (parser_read_uint8 p)
      × IsAtMost 0xff (parser_read_uint8_hex p)
unfolding parser_read_uint32 parser_read_uint32_hex parser_read_uint16 parser_read_uint16_hex
    parser_read_uint8 parser_read_uint8_hex
parser_read_narrow-IsAtMost p = (
  at_most-IsAtMost 0xffff_ffff (parser_read_uint64 p),
  at_most-IsAtMost 0xffff_ffff (parser_read_uint64_hex p),
  at_most-IsAtMost 0xffff (parser_read_uint64 p),
  at_most-IsAtMost 0xffff (parser_read_uint64_hex p),
  at_most-IsAtMost 0xff (parser_read_uint64 p),
  at_most-IsAtMost 0xff (parser_read_uint64_hex p),
)
