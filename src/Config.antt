-- ===== src/Config.antt =====
-- The configuration file and `parse_args` of src/config/config.c.
pub mod Options
use tcp_dpdk.Base.{
  ℕ, ◌+◌, ◌==◌, true, false, List, [], ◌∷◌, ◌++◌, Option, none, some, Outcome, ok, fault, overrun,
  guard, ltb, length, c_string, is, ◌>>=◌, ◌>>◌, if◌then◌else◌,
}

-- The three texts of `struct config`, arrays of 50 bytes.
pub record Settings : Type 0 where
  pub src_ip : List ℕ
  pub src_mac : List ℕ
  pub dst_mac : List ℕ

pub data Field : Type 0 where
  src_ip src_mac dst_mac : Field

abbrev pub assign : Field → List ℕ → Settings → Settings
assign Field.src_ip v s = record s { src_ip = v }
assign Field.src_mac v s = record s { src_mac = v }
assign Field.dst_mac v s = record s { dst_mac = v }

-- What an argument is: "--", an option with a value behind it, or one to skip.
pub data Kind : Type 0 where
  end_mark skipped : Kind
  option : Field → Kind

unfoldable pub kind : List ℕ → Kind
kind arg =
    if is arg "--"
    then end_mark
    else if is arg "ddio"
    then skipped
    else if is arg "src_ip"
    then option Field.src_ip
    else if is arg "src_mac"
    then option Field.src_mac
    else if is arg "dst_mac"
    then option Field.dst_mac
    else skipped

-- `strcpy` to one of the arrays.
abbrev pub copy_to : Field → List ℕ → Settings → Outcome Settings
copy_to f v s = do guard (ltb (length v) 50) overrun; ok (assign f v s)

-- An argument that is no value; `more` goes on behind it.
abbrev pub at_kind :
    ℕ
    → Settings
    → (Option Field → Outcome (Settings × Option ℕ))
    → Kind
    → Outcome (Settings × Option ℕ)
at_kind i s more end_mark = ok (s, some i)
at_kind i s more skipped = more none
at_kind i s more (option f) = more (some f)

-- The loop from `argv[i]` on; a field waits for its value. Behind the last argument there is no
-- value to read. The result is the settings and `i`, or `none` for -1.
unfoldable pub args_loop :
    ℕ → Option Field → Settings → List (List ℕ) → Outcome (Settings × Option ℕ)
args_loop i none s [] = ok (s, none)
args_loop i (some f) s [] = fault overrun
args_loop i (some f) s (v ∷ argv) = do s' ← copy_to f v s; args_loop (i + 1) none s' argv
args_loop i none s (arg ∷ argv) = at_kind i s (λ o. args_loop (i + 1) o s argv) (kind arg)

-- The first argument is the name of the program. Behind "--" it is copied over that argument, whose
-- buffer is as large as its own.
unfoldable pub parse_args : Settings → List (List ℕ) → Outcome (Settings × Option ℕ)
parse_args s [] = ok (s, none)
parse_args s (name ∷ argv) = args_loop 1 none s argv

-- The lines of the file, without the newline: what `getline` returns one by one. `line` is the part
-- of the line that was read.
abbrev pub lines_from : List ℕ → List ℕ → List (List ℕ)
lines_from [] [] = []
lines_from (c ∷ line) [] = (c ∷ line) ∷ []
lines_from line (c ∷ file) = elim (c == b'\n') [
  | true ↦ line ∷ lines_from [] file
  | false ↦ lines_from (line ++ c ∷ []) file
]

-- `strcpy` of each line to a buffer of 100 bytes.
unfoldable pub copy_lines : List (List ℕ) → Outcome (List (List ℕ))
copy_lines [] = ok []
copy_lines (line ∷ lines) = do
  guard (ltb (length (c_string line)) 100) overrun
  argv ← copy_lines lines
  ok (c_string line ∷ argv)

unfoldable pub read_argv : List ℕ → Outcome (List (List ℕ))
unfolding copy_lines
read_argv file = copy_lines (lines_from [] file)
