-- ===== src/Response/Framing/Lines.antt =====
-- The reading of lines that hold no carriage return.
use liso.Base.{
  ℕ, zero, suc, ◌+◌, ◌≤◌, ◌<◌, ◌≡◌, ◌≢◌, refl, true, false, Option, some, List, [], ◌∷◌, ◌++◌,
  arith, length, All, length-append,
}
use liso.CString.{Str}
use liso.Response.Framing.{starts_lf, split_line, told, is_empty, read_head}

-- A text in which no line ends.
abbrev pub OneLine : Str → Type 0
OneLine s = All (λ c. c ≢ 13) s

pub split_line_lem :
    (line rest : List ℕ) → OneLine line → split_line (line ++ 13 ∷ 10 ∷ rest) ≡ some (line, rest)
unfolding split_line starts_lf
split_line_lem [] rest o = refl
split_line_lem (c ∷ line) rest (n, o) = ground (arith, split_line_lem line rest o)

-- Lines, each with its end, in front of a text.
abbrev pub join : List Str → List ℕ → List ℕ
join [] t = t
join (line ∷ lines) t = line ++ 13 ∷ 10 ∷ join lines t

-- What the last of the lines that tell a length tells.
abbrev pub last_told : Option ℕ → List Str → Option ℕ
last_told len [] = len
last_told len (line ∷ lines) = last_told (told len line) lines

abbrev pub IsField : Str → Type 0
IsField line = OneLine line × (is_empty line ≡ false)

empty_line : is_empty [] ≡ true
unfolding is_empty
empty_line = refl

pub read_head_lem :
    (f : ℕ) (len : Option ℕ) (lines : List Str) (t : List ℕ) {n : ℕ}
    → All IsField lines
    → length lines < f
    → last_told len lines ≡ some n
    → read_head f len (join lines (13 ∷ 10 ∷ t)) ≡ some (n, t)
unfolding read_head
read_head_lem zero len lines t a h e = absurd (omega arith)
read_head_lem (suc f) len [] t a h e = ground (arith, split_line_lem [] t tt, empty_line, e)
read_head_lem (suc f) len (line ∷ lines) t ((o, ne), a) h e = ground (
  arith,
  split_line_lem line (join lines (13 ∷ 10 ∷ t)) o,
  ne,
  read_head_lem f (told len line) lines t a (omega arith) e,
)

pub length-join : (lines : List Str) (t : List ℕ) → length lines + length t ≤ length (join lines t)
length-join [] t = omega arith
length-join (line ∷ lines) t =
    omega (arith, length-join lines t, length-append line (13 ∷ 10 ∷ join lines t))
