-- ===== src/Tests/Echo.antt =====
-- The theorems on the echo client, at concrete inputs.
use liso.Base.{length, ℕ, ◌≡◌, ◌⊎◌, refl, true, false, some, List, [], ◌∷◌, ◌++◌, codes, arith}
use liso.CString.{Str}
use liso.Client.{ClientSys, client_failed, client_main}
use liso.Client.Echo.{Talked, client_main-echoes, client_main-Ends}
use liso.Tests.Data.{blank, length-blank}

-- Two lines on stdin, and a server that gives back what it gets.
abbrev echoing : ClientSys
echoing = record {
  resolves = λ server port. true;
  socket = some 3;
  connect = true;
  stdin = codes "hi" ++ 10 ∷ codes "more";
  junk = blank 4096;
  send = λ bytes. some (length bytes);
  reply = λ bytes. some bytes;
}

abbrev args : List Str
args = codes "client" ∷ codes "localhost" ∷ codes "10031" ∷ []

client_main-echoes_example : client_main args echoing ≡ record {
  code = 0;
  out =
      codes "Sending "
      ++ ((codes "hi" ++ 10 ∷ []) ++ (codes "Received " ++ (codes "hi" ++ 10 ∷ [])));
  sent = codes "hi" ++ 10 ∷ [];
  closed_fds = 3 ∷ [];
  overrun = false;
}
client_main-echoes_example =
    client_main-echoes (codes "client") (codes "localhost") (codes "10031") echoing 3 (codes "hi")
      (codes "more") refl refl refl refl (omega arith) (omega arith) (omega arith)
      (omega (arith, length-blank 4096)) (λ bytes. refl) (λ bytes. refl)

-- A server that floods the client.
abbrev flooded : ClientSys
flooded = record echoing { reply = λ bytes. some (blank 4096) }

client_main-Ends_example :
    (client_main args flooded ≡ client_failed)
    ⊎ ((fd : ℕ) × (some 3 ≡ some fd) × Talked flooded fd (client_main args flooded))
client_main-Ends_example =
    client_main-Ends args flooded (λ bytes got e. ground (arith, length-blank 4096))
