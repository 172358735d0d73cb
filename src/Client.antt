-- ===== src/Client.antt =====
-- client.c: the echo client. Its calls of the system are a record; of stderr there is no model.
pub mod Echo
use liso.Base.{
  ℕ, zero, suc, ◌+◌, Bool, true, false, Option, none, some, List, [], ◌∷◌, ◌++◌, ◌==◌, codes,
  if◌then◌else◌, take, ltb, leb, length, ◌-◌, ◌&&◌,
}
use liso.CString.{Str, cstr}
use liso.Buffer.{write_at}

-- `BUF_SIZE`
abbrev pub buf_size : ℕ
buf_size = 4096

-- `getaddrinfo`, `socket` and `connect`; what there is to read on stdin, and what the array `msg`
-- holds before; how many bytes `send` takes of what it is given, `none` if it fails; and what `recv`
-- gives when the peer got some bytes, `none` if it fails.
pub record ClientSys : Type 0 where
  pub resolves : Str → Str → Bool
  pub socket : Option ℕ
  pub connect : Bool
  pub stdin : List ℕ
  pub junk : List ℕ
  pub send : List ℕ → Option ℕ
  pub reply : List ℕ → Option (List ℕ)

-- What a run leaves: the exit code, the text on stdout, the bytes sent, the descriptors closed, and
-- whether the terminator was written behind the array `buf`.
pub record ClientEnd : Type 0 where
  pub code : ℕ
  pub out : Str
  pub sent : List ℕ
  pub closed_fds : List ℕ
  pub overrun : Bool

-- The bytes that `fgets` takes for an array of `n + 1`: up to a newline, or as many as there is room.
unfoldable pub line_of : ℕ → List ℕ → Str
line_of zero s = []
line_of (suc n) [] = []
line_of (suc n) (c ∷ s) = let more = line_of n s in c ∷ (if c == 10 then [] else more)

-- The array `msg` behind `fgets`: at the end of the input it is as it was.
unfoldable pub fill_msg : List ℕ → Str → List ℕ
fill_msg junk [] = junk
fill_msg junk (c ∷ cs) = write_at junk 0 (c ∷ cs ++ 0 ∷ [])

unfoldable pub message : ClientSys → Str
message sys = cstr (fill_msg sys.junk (line_of (buf_size - 1) sys.stdin))

unfoldable pub client_failed : ClientEnd
client_failed = record { code = 1; out = []; sent = []; closed_fds = []; overrun = false }

-- The bytes that a `send` with the answer `n` hands over; the client does not look at the answer.
unfoldable pub taken : List ℕ → Option ℕ → List ℕ
taken msg none = []
taken msg (some n) = take n msg

-- Behind `send` and `recv`: a reply of more than one byte is ended and printed.
unfoldable pub after_recv : ℕ → Str → List ℕ → Option (List ℕ) → ClientEnd
after_recv fd msg sent none = record {
  code = 0;
  out = codes "Sending " ++ msg;
  sent = sent;
  closed_fds = fd ∷ [];
  overrun = false;
}
after_recv fd msg sent (some bytes) = record {
  code = 0;
  out =
      codes "Sending "
      ++ (msg ++ (if ltb 1 (length bytes) then codes "Received " ++ cstr bytes else []));
  sent = sent;
  closed_fds = fd ∷ [];
  overrun = ltb 1 (length bytes) && leb buf_size (length bytes);
}

unfoldable pub talk_to : ClientSys → ℕ → List ℕ → ClientEnd
talk_to sys fd sent = after_recv fd (message sys) sent (sys.reply sent)

unfoldable pub open_client : ClientSys → Option ℕ → ClientEnd
open_client sys none = client_failed
open_client sys (some fd) =
    if sys.connect
    then talk_to sys fd (taken (message sys) (sys.send (message sys)))
    else client_failed

unfoldable pub client_main : List Str → ClientSys → ClientEnd
client_main (name ∷ server ∷ port ∷ []) sys =
    if sys.resolves server port then open_client sys sys.socket else client_failed
client_main _ sys = client_failed
