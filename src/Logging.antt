-- ===== src/Logging.antt =====
-- logging.c, and `cgi_logerr` of cgi.c. `printf` and the clock are not the program's own: a call has the formatted
-- text as an argument, and the text of the date.
pub mod Lines
use liso.Base.{
  ℕ, suc, ◌+◌, Bool, true, false, not, ◌||◌, Option, none, some, List, [], ◌∷◌, ◌++◌, ltb,
  if◌then◌else◌, length, take, codes,
}
use liso.CString.{Str}
use liso.Buffer.{bufsz}
use liso.Cgi.{Cgi}

-- `LINESZ`
abbrev pub linesz : ℕ
linesz = bufsz

-- The size of the array `wrapped`: LINESZ + DATESZ + 10.
abbrev pub wrappedsz : ℕ
wrappedsz = linesz + 64 + 10

-- The static state: the descriptor, `none` for -1; the content of the file; whether a text went past
-- `line` or `wrapped`, what `vsprintf` and `sprintf` do not prevent. Behind that the state has no meaning
-- in C, and the theorems ask for texts that fit.
pub record Log : Type 0 where
  pub fd : Option ℕ
  pub file : Str
  pub overrun : Bool

abbrev pub log_new : Log
log_new = record { fd = none; file = []; overrun = false }

-- `fd > 0`
abbrev pub positive : Option ℕ → Bool
positive none = false
positive (some fd) = ltb 0 fd

unfoldable pub log_inited : Log → Bool
log_inited l = positive l.fd

-- `opened` is what `open` gives, which empties the file, and `unlocked` whether the test of the lock succeeds.
unfoldable pub log_init : Log → Option ℕ → Bool → Log × Bool
log_init l opened unlocked = if log_inited l then (l, false) else elim opened [
  | none ↦ (record l { fd = none }, false)
  | some fd ↦ (record l { fd = some fd; file = [] }, unlocked)
]

-- `write`, of a descriptor that is open.
unfoldable pub log_write : Log → Str → Log
log_write l bytes = elim l.fd [ none ↦ l | some fd ↦ record l { file = l.file ++ bytes } ]

abbrev pub newline : Str
newline = 10 ∷ []

-- `vsprintf` into `line`, with a terminator.
abbrev pub fill_line : Log → Str → Log
fill_line l text = record l { overrun = l.overrun || ltb linesz (length text) }

-- `sprintf` into `wrapped`, with a terminator.
abbrev pub fill_wrapped : Log → Str → Log
fill_wrapped l whole = record l { overrun = l.overrun || not (ltb (length whole) wrappedsz) }

-- `wrapped` has room for a line that fits, with a date of less than DATESZ bytes.
unfoldable pub log_line : Log → Str → Str → Log
log_line l date text = log_write (fill_line l text) (date ++ (codes " - " ++ (text ++ newline)))

-- The mark of an error is longer, so that a line that fits can go past `wrapped`.
unfoldable pub log_errln : Log → Str → Str → Log
log_errln l date text =
    let whole = date ++ (codes " !!! ERROR !!! " ++ (text ++ newline)) in
    log_write (fill_wrapped (fill_line l text) whole) whole

unfoldable pub log_raw : Log → Str → Log
log_raw l bytes = log_write (log_write l bytes) newline

unfoldable pub log_stop : Log → Log × List ℕ
log_stop l = (l, if log_inited l then elim l.fd [ none ↦ [] | some fd ↦ fd ∷ [] ] else [])

-- `got` is what the read of ERRSZ bytes from the CGI's error pipe gives, and `heading` the text of "[CGI %d]".
unfoldable pub cgi_logerr : Log → Str → Str → Option Str → Log
cgi_logerr l date heading none = l
cgi_logerr l date heading (some []) = l
cgi_logerr l date heading (some (c ∷ cs)) = log_raw (log_errln l date heading) (c ∷ cs)
