-- ===== src/Response/Framing.antt =====
-- How a client of HTTP/1.1 reads a response: a status line, header lines up to an empty one, and as
-- many bytes of a body as Content-Length tells. It is a description of the protocol and not of code.
pub mod Lines
pub mod Head
pub mod RoundTrip
pub mod Fields
use liso.Base.{
  ℕ, zero, suc, ◌+◌, Bool, true, false, ◌&&◌, Option, none, some, List, [], ◌∷◌, ◌==◌, codes,
  if◌then◌else◌, leb, length, take, drop,
}
use liso.Request.{Method, m_head, is_method}
use liso.CString.{Str, strncaseeq, digits_value}

unfoldable pub starts_lf : List ℕ → Bool
starts_lf [] = false
starts_lf (c ∷ s) = c == 10

-- The line in front of the first CRLF, and what is behind that.
unfoldable pub split_line : List ℕ → Option (Str × List ℕ)
split_line [] = none
split_line (c ∷ s) =
    let more : Option (Str × List ℕ) = elim (split_line s) [
      | none ↦ none
      | some (line, rest) ↦ some (c ∷ line, rest)
    ] in
    if c == 13 && starts_lf s then some ([], drop 1 s) else more

abbrev pub length_key : Str
length_key = codes "Content-Length: "

unfoldable pub is_length : Str → Bool
is_length line = strncaseeq line length_key 16

unfoldable pub told : Option ℕ → Str → Option ℕ
told len line = if is_length line then some (digits_value 0 (drop 16 line)) else len

unfoldable pub is_empty : Str → Bool
is_empty [] = true
is_empty (c ∷ s) = false

-- The length that the header lines tell, and what is behind them.
unfoldable pub read_head : ℕ → Option ℕ → List ℕ → Option (ℕ × List ℕ)
read_head zero len s = none
read_head (suc f) len s = elim (split_line s) [
  | none ↦ none
  | some (line, rest) ↦
      let more = read_head f (told len line) rest in
      let last : Option (ℕ × List ℕ) = elim len [ none ↦ none | some n ↦ some (n, rest) ] in
      if is_empty line then last else more
]

-- The three digits behind the version, in the status line.
unfoldable pub status_of : Str → ℕ
status_of line = digits_value 0 (take 3 (drop 9 line))

unfoldable pub cut_body : ℕ → Option (ℕ × List ℕ) → Option (ℕ × List ℕ × List ℕ)
cut_body code none = none
cut_body code (some (n, rest)) =
    if leb n (length rest) then some (code, take n rest, drop n rest) else none

-- The status, the body, and what is behind the response to a request that is no HEAD.
unfoldable pub read_response : List ℕ → Option (ℕ × List ℕ × List ℕ)
read_response s = elim (split_line s) [
  | none ↦ none
  | some (line, rest) ↦
      if strncaseeq line (codes "HTTP/1.1 ") 9
      then cut_body (status_of line) (read_head (suc (length rest)) none rest)
      else none
]

-- The response to a HEAD ends with its header, whatever length that tells.
unfoldable pub no_body : ℕ → Option (ℕ × List ℕ) → Option (ℕ × List ℕ × List ℕ)
no_body code none = none
no_body code (some (n, rest)) = some (code, [], rest)

unfoldable pub read_head_response : List ℕ → Option (ℕ × List ℕ × List ℕ)
read_head_response s = elim (split_line s) [
  | none ↦ none
  | some (line, rest) ↦
      if strncaseeq line (codes "HTTP/1.1 ") 9
      then no_body (status_of line) (read_head (suc (length rest)) none rest)
      else none
]

-- The response to a request with the method `m`.
unfoldable pub read_reply : Method → List ℕ → Option (ℕ × List ℕ × List ℕ)
read_reply m s = if is_method m m_head then read_head_response s else read_response s
