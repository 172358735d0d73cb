-- ===== src/Logging/Lines.antt =====
-- What the calls of logging.c do to the log.
use liso.Base.{length, ◌≤◌, ◌<◌, ◌≡◌, Option, none, some, List, [], ◌∷◌, ◌++◌, codes}
use liso.CString.{Str}
use liso.Logging.{linesz, wrappedsz, Log, log_line, log_errln, log_raw, cgi_logerr, newline}

-- A call that writes to the log.
pub data Entry : Type 0 where
  line error : Str → Str → Entry
  raw : Str → Entry
  cgi : Str → Str → Option Str → Entry

abbrev pub write_entry : Log → Entry → Log
write_entry l (line date text) = log_line l date text
write_entry l (error date text) = log_errln l date text
write_entry l (raw bytes) = log_raw l bytes
write_entry l (cgi date heading got) = cgi_logerr l date heading got

abbrev pub write_entries : Log → List Entry → Log
write_entries l [] = l
write_entries l (e ∷ es) = write_entries (write_entry l e) es

-- What a call means to leave in the log: lines end with a newline, an error is marked.
abbrev pub entry_text : Entry → Str
entry_text (line date text) = date ++ (codes " - " ++ (text ++ newline))
entry_text (error date text) = date ++ (codes " !!! ERROR !!! " ++ (text ++ newline))
entry_text (raw bytes) = bytes ++ newline
entry_text (cgi date heading none) = []
entry_text (cgi date heading (some [])) = []
entry_text (cgi date heading (some (c ∷ cs))) =
    (date ++ (codes " !!! ERROR !!! " ++ (heading ++ newline))) ++ ((c ∷ cs) ++ newline)

abbrev pub log_text : List Entry → Str
log_text [] = []
log_text (e ∷ es) = entry_text e ++ log_text es

-- A formatted text fits into `line`, and the whole line into `wrapped`, each with its terminator.
abbrev pub FitsArrays : Str → Str → Type 0
FitsArrays text whole = (length text ≤ linesz) × (length whole < wrappedsz)

abbrev pub Fits : Entry → Type 0
Fits (line date text) = (length text ≤ linesz) × (length date < 64)
Fits (error date text) = FitsArrays text (entry_text (error date text))
Fits (raw bytes) = Unit
Fits (cgi date heading got) = FitsArrays heading (entry_text (error date heading))

-- `m` is `l` with `bytes` behind its content, and nothing went past an array.
record Appends (l : Log) (bytes : Str) (m : Log) : Type 0 where
  same : m.fd ≡ l.fd
  inside : m.overrun ≡ l.overrun
  more : m.file ≡ l.file ++ bytes
