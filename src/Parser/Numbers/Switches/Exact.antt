-- ===== src/Parser/Numbers/Switches/Exact.antt =====
-- `parser_read_arg_bool` and its words.
use tcp_dpdk.Base.{ℕ, ◌≡◌, ap, ◌∙◌, ◌↔◌, List}
use tcp_dpdk.Parser.Numbers.{value, parser_read_arg_bool}
use tcp_dpdk.Parser.Numbers.Switches.Reading.{parser_read_arg_bool-Says}
use tcp_dpdk.Parser.Numbers.Switches.Texts.{parser_read_arg_bool-text}
use tcp_dpdk.Parser.Numbers.Switches.{Says}

-- `parser_read_arg_bool` returns `v` exactly for the texts that consist, between white space, of some
-- of "yes", "on", "no" and "off" in this order, each in small or in capital letters and nothing
-- between two, where `v` is 1 if the last word is "yes" or "on", and 0 if it is "no" or "off".
pub parser_read_arg_bool_iff : (p : List ℕ) (v : ℕ) → (parser_read_arg_bool p ≡ value v) ↔ Says p v
parser_read_arg_bool_iff p v = (
  parser_read_arg_bool-Says p v,
  λ h.
      ap parser_read_arg_bool h.parts
      ∙ parser_read_arg_bool-text h.front h.back h.sentence.yes_word h.sentence.on_word
          h.sentence.no_word h.sentence.off_word v h.before h.behind h.means,
)
