-- ===== src/Request/Scan.antt =====
-- The macros of request.c by which the parser moves through its buffer.
pub mod Bounds
use liso.Base.{ℕ, suc, ◌+◌, ◌-◌, Bool, not, ◌&&◌, ◌||◌, List, [], ◌∷◌, if◌then◌else◌, ltb, ◌==◌}
use liso.CString.{is_space}
use liso.Buffer.{Buf, slice, peek, peek_prev, buf_end}

-- `issp`: a space except for '\n'.
unfoldable pub issp : ℕ → Bool
issp c = c == 32 || c == 9 || c == 13 || c == 11 || c == 12

-- How many bytes in front pass the test.
unfoldable pub run_length : (ℕ → Bool) → List ℕ → ℕ
run_length test [] = 0
run_length test (c ∷ s) = let more = suc (run_length test s) in if test c then more else 0

-- `while (data_p < buf_end(buf) && test(*data_p)) data_p++;`
unfoldable pub skip : (ℕ → Bool) → Buf → Buf
skip test b = record b {
  data_p = b.data_p + run_length test (slice b.mem b.data_p (buf_end b - b.data_p));
}

-- `proceed_inline` and `proceed_line`: the `p` that they set, and the buffer.
unfoldable pub proceed_inline : Buf → ℕ × Buf
proceed_inline b = let b' = skip issp b in (b'.data_p, skip (λ c. not (is_space c)) b')

unfoldable pub proceed_line : Buf → ℕ × Buf
proceed_line b = let b' = skip issp b in (b'.data_p, skip (λ c. not (c == 10)) b')

unfoldable pub eol : Buf → ℕ → Bool
eol b p = p == b.data_p && ltb p (buf_end b) && peek_prev b p == 13 && peek b p == 10
