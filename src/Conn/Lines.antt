-- ===== src/Conn/Lines.antt =====
-- What the handler gets: the lines of the input.
use tcp_dpdk.Base.{
  ℕ, zero, suc, ◌+◌, ◌≤◌, ◌<◌, ◌≡◌, ◌≢◌, refl, sym, ap, fun_ext, ◌∙◌, Bool, true, false, List, [],
  ◌∷◌, ◌++◌, Outcome, ok, fault, ◌>>=◌, append-nil, append_assoc, length, set, take, c_string, ltb,
  ltb_iff, ◌==◌, All, arith, length-set, if◌then◌else◌,
}
use tcp_dpdk.Conn.{Conn, reset, answer, end_of_line, handle_byte, handle_bytes, unless_failed}
use tcp_dpdk.Conn.Bounds.{IsBounded}

take-set_end :
    (xs : List ℕ) (n v m : ℕ)
    → n < length xs
    → m ≡ suc n
    → take m (set xs n v) ≡ take n xs ++ v ∷ []
take-set_end [] n v m h e = absurd (omega (arith, h))
take-set_end (x ∷ xs) n v zero h e = absurd (omega (arith, e))
take-set_end (x ∷ xs) zero v (suc m) h e =
    let none_left : m ≡ 0 = omega (arith, e) in ap (λ k. v ∷ take k xs) none_left
take-set_end (x ∷ xs) (suc n) v (suc m) h e =
    ap (λ ys. x ∷ ys) (take-set_end xs n v m (omega (arith, h)) (omega (arith, e)))

-- A NUL ends the string.
c_string-set : (xs : List ℕ) (n : ℕ) → n < length xs → c_string (set xs n 0) ≡ c_string (take n xs)
c_string-set [] n h = absurd (omega (arith, h))
c_string-set (x ∷ xs) zero h = refl
c_string-set (x ∷ xs) (suc n) h =
    ap (λ ys. if x == 0 then [] else x ∷ ys) (c_string-set xs n (omega (arith, h)))

module _ {A : Type 0} (write_ok : ℕ → Bool) (msg_handle : A → List ℕ → Outcome (A × List ℕ)) where
  -- The connection with another buffer, `n` bytes of it used.
  abbrev with_buffer : Conn A → List ℕ → ℕ → Conn A
  with_buffer s b n = record s { msg_in = b; msg_in_len = n }

  -- Bytes of a line are read into the buffer behind those before them, `m` in all.
  record Stored (s : Conn A) (fd : ℕ) (line rest : List ℕ) (m : ℕ) : Type 0 where
    buffer : List ℕ
    size : length buffer ≡ length s.msg_in
    content : take m buffer ≡ take s.msg_in_len s.msg_in ++ line
    onward :
        handle_bytes write_ok msg_handle s fd (line ++ rest)
        ≡ handle_bytes write_ok msg_handle (with_buffer s buffer m) fd rest

  handle_byte-stores :
      (s : Conn A) (fd c : ℕ)
      → IsBounded s
      → c ≢ b'\n'
      → s.msg_in_len < s.msg_in_len_max
      → handle_byte write_ok msg_handle s fd c
        ≡ ok (with_buffer s (set s.msg_in s.msg_in_len c) (s.msg_in_len + 1), true)
  unfolding handle_byte
  handle_byte-stores s fd c bounded plain fits =
      let room : ltb s.msg_in_len (length s.msg_in) ≡ true =
        (ltb_iff s.msg_in_len (length s.msg_in)).1 (omega (arith, bounded.size, fits)) in
      let other : (c == b'\n') ≡ false = ground arith in
      let free : ltb s.msg_in_len s.msg_in_len_max ≡ true =
        (ltb_iff s.msg_in_len s.msg_in_len_max).1 fits in
      rw (other, free, room, if◌then◌else◌) refl

  handle_bytes-stores :
      (s : Conn A) (fd : ℕ) (line rest : List ℕ) (m : ℕ)
      → IsBounded s
      → All (λ c. c ≢ b'\n') line
      → m ≡ s.msg_in_len + length line
      → m ≤ s.msg_in_len_max
      → Stored s fd line rest m
  unfolding handle_bytes
  handle_bytes-stores s fd [] rest m bounded plain e short =
      let same : m ≡ s.msg_in_len = omega (arith, e) in
      record {
        buffer = s.msg_in;
        size = refl;
        content = ap (λ k. take k s.msg_in) same ∙ sym (append-nil (take s.msg_in_len s.msg_in));
        onward =
            ap (λ k. handle_bytes write_ok msg_handle (with_buffer s s.msg_in k) fd rest)
              (sym same);
      }
  handle_bytes-stores s fd (c ∷ line) rest m bounded plain e short =
      let s' = with_buffer s (set s.msg_in s.msg_in_len c) (s.msg_in_len + 1) in
      let kept = length-set s.msg_in s.msg_in_len c in
      let h =
        handle_bytes-stores s' fd line rest m
          (record { size = omega (arith, bounded.size, kept); used = omega (arith, e, short) })
          plain.1 (omega (arith, e)) short in
      record {
        buffer = h.buffer;
        size = h.size ∙ kept;
        content =
            h.content
            ∙ ap (λ l. l ++ line)
                (take-set_end s.msg_in s.msg_in_len c (s.msg_in_len + 1)
                  (omega (arith, bounded.size, e, short)) (omega arith))
            ∙ append_assoc (take s.msg_in_len s.msg_in) (c ∷ []) line;
        onward =
            ap
              (λ r. r >>= unless_failed (λ t. handle_bytes write_ok msg_handle t fd (line ++ rest)))
              (handle_byte-stores s fd c bounded plain.0 (omega (arith, e, short)))
            ∙ h.onward;
      }

  bind_assoc :
      {B : Type 0} (m : Outcome B) (f : B → Conn A × Bool)
      (g : Conn A × Bool → Outcome (Conn A × Bool))
      → ((m >>= λ r. ok (f r)) >>= g) ≡ (m >>= λ r. g (f r))
  bind_assoc (ok b) f g = refl
  bind_assoc (fault e) f g = refl

  -- What follows the handler's answer: the rest of the input, at the start of a line, unless the
  -- answer cannot be written.
  abbrev pub Answered : Conn A → ℕ → List ℕ → List ℕ → List ℕ → A → List ℕ → Outcome (Conn A × Bool)
  Answered s fd line rest b state [] =
      handle_bytes write_ok msg_handle (record s { msg_in = b; msg_in_len = 0; state = state }) fd
        rest
  Answered s fd line rest b state (c ∷ out) =
      if write_ok s.writes
      then handle_bytes write_ok msg_handle
          (record s {
            msg_in = b;
            msg_in_len = 0;
            state = state;
            written = s.written ++ (fd, c ∷ out) ∷ [];
            writes = s.writes + 1;
          })
          fd rest
      else ok (
        record s { msg_in = b; msg_in_len = length line; state = state; writes = s.writes + 1 },
        false,
      )

  written-if :
      (b : Bool) (u v : Conn A) (f : Conn A → Outcome (Conn A × Bool))
      → unless_failed f (reset (if b then (u, true) else (v, false)))
        ≡ (if b then f (record u { msg_in_len = 0 }) else ok (v, false))
  written-if true u v f = refl
  written-if false u v f = refl

  answer-Answered :
      (s : Conn A) (fd : ℕ) (line rest b : List ℕ) (state : A) (out : List ℕ)
      → unless_failed
          (λ t. handle_bytes write_ok msg_handle t fd rest)
          (reset (
            answer write_ok
              (record s { msg_in = b; msg_in_len = length line; state = state })
              fd
              out))
        ≡ Answered s fd line rest b state out
  answer-Answered s fd line rest b state [] = refl
  answer-Answered s fd line rest b state (c ∷ out) =
      written-if (write_ok s.writes) _ _ (λ t. handle_bytes write_ok msg_handle t fd rest)

  -- The handler's answer to `line`, and the rest of the input.
  abbrev pub Passed : Conn A → ℕ → List ℕ → List ℕ → List ℕ → Outcome (Conn A × Bool)
  Passed s fd line rest b =
      msg_handle s.state (c_string line) >>= λ r. Answered s fd line rest b r.0 r.1

  end_of_line-passes :
      (s : Conn A) (fd : ℕ) (line rest b : List ℕ)
      → length line < length b
      → take (length line) b ≡ line
      → (end_of_line write_ok msg_handle (with_buffer s b (length line)) fd
          >>= unless_failed (λ t. handle_bytes write_ok msg_handle t fd rest))
        ≡ Passed s fd line rest (set b (length line) 0)
  unfolding end_of_line
  end_of_line-passes s fd line rest b room content =
      let message : c_string (set b (length line) 0) ≡ c_string line =
        c_string-set b (length line) room ∙ ap c_string content in
      rw ((ltb_iff (length line) (length b)).1 room, message)
        (bind_assoc (msg_handle s.state (c_string line)) _ _
          ∙ ap (λ f. msg_handle s.state (c_string line) >>= f)
              (fun_ext (λ r. answer-Answered s fd line rest (set b (length line) 0) r.0 r.1)))

  -- At the start of a line, a line that fits is passed on whole: the handler gets it up to its
  -- first NUL. If the handler returns an empty answer nothing is written; another answer is written
  -- to the client. The rest of the input is handled then, with no byte of a line in the buffer; but
  -- if that write fails, the result is -1, with the line still counted. The buffer keeps its size.
  pub handle_bytes-line :
      (s : Conn A) (fd : ℕ) (line rest : List ℕ)
      → IsBounded s
      → s.msg_in_len ≡ 0
      → All (λ c. c ≢ b'\n') line
      → length line ≤ s.msg_in_len_max
      → (b : List ℕ) × (length b ≡ length s.msg_in)
        × (handle_bytes write_ok msg_handle s fd (line ++ b'\n' ∷ rest) ≡ Passed s fd line rest b)
  unfolding handle_bytes handle_byte
  handle_bytes-line s fd line rest bounded start plain short =
      let h =
        handle_bytes-stores s fd line (b'\n' ∷ rest) (length line) bounded plain
          (omega (arith, start)) short in
      (
        set h.buffer (length line) 0,
        length-set h.buffer (length line) 0 ∙ h.size,
        h.onward
            ∙ end_of_line-passes s fd line rest h.buffer
                (omega (arith, h.size, bounded.size, short))
                (h.content ∙ ap (λ k. take k s.msg_in ++ line) start),
      )
