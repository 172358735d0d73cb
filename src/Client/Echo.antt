-- ===== src/Client/Echo.antt =====
-- The echo client of client.c, with any peer and with an echo server.
use liso.Base.{
  ℕ, zero, suc, ◌+◌, ◌≤◌, ◌<◌, ◌≡◌, ◌≢◌, ◌⊎◌, inl, inr, refl, sym, ap, Bool, true, false, Option,
  none, some, List, [], ◌∷◌, ◌++◌, length-append, take_le, ◌↔◌, codes, arith, length, All,
  Bool-cases, ltb, if◌then◌else◌,
}
use mathlib.Core.List.{append_assoc, append-nil}
use liso.CString.{Str, cstr}
use liso.Buffer.{write_at}
use liso.Client.{
  taken, talk_to, buf_size, ClientSys, ClientEnd, line_of, fill_msg, message, client_failed,
  after_recv, open_client, client_main,
}

-- A byte of a line of text: neither a newline nor the terminator.
abbrev pub IsText : ℕ → Type 0
IsText c = (c ≢ 10) × (c ≢ 0)

line_of-text :
    (n : ℕ) (text rest : List ℕ)
    → All IsText text
    → length text < n
    → line_of n (text ++ 10 ∷ rest) ≡ text ++ 10 ∷ []
unfolding line_of
line_of-text zero text rest t h = elim h [ ]
line_of-text (suc n) [] rest t h = refl
line_of-text (suc n) (c ∷ text) rest ((a, b), t) h =
    ground (arith, line_of-text n text rest t (omega arith))

-- A text with its terminator, written to an array with room for both.
cstr-write_at :
    (junk text : List ℕ)
    → All IsText text
    → length text + 1 < length junk
    → cstr (write_at junk 0 (text ++ 10 ∷ 0 ∷ [])) ≡ text ++ 10 ∷ []
unfolding cstr write_at
cstr-write_at [] text t h = elim h [ ]
cstr-write_at (j ∷ []) [] t h = absurd (omega arith)
cstr-write_at (j ∷ k ∷ junk) [] t h = refl
cstr-write_at (j ∷ junk) (c ∷ text) ((a, b), t) h =
    ground (arith, cstr-write_at junk text t (omega arith))

cstr-text : (text : List ℕ) → All IsText text → cstr (text ++ 10 ∷ []) ≡ text ++ 10 ∷ []
unfolding cstr
cstr-text [] t = refl
cstr-text (c ∷ text) ((a, b), t) = ground (arith, cstr-text text t)

append_cons : (text : List ℕ) → (c : ℕ) × (cs : List ℕ) × (text ++ 10 ∷ [] ≡ c ∷ cs)
append_cons [] = (10, [], refl)
append_cons (c ∷ text) = (c, text ++ 10 ∷ [], refl)

message-text :
    (sys : ClientSys) (text rest : List ℕ)
    → All IsText text
    → length text + 1 < buf_size
    → buf_size ≤ length sys.junk
    → sys.stdin ≡ text ++ 10 ∷ rest
    → message sys ≡ text ++ 10 ∷ []
unfolding message fill_msg
message-text sys text rest t h room e =
    let (c, cs, split) = append_cons text in
    rw (e, line_of-text 4095 text rest t (omega arith))
      (ground (
        arith,
        split,
        append_assoc text (10 ∷ []) (0 ∷ []),
        cstr-write_at sys.junk text t (omega arith),
      ))

-- With a `send` that takes all that it is given and an echo server, which gives back what it was sent, a line of text on stdin that is not empty
-- and fits into the array with its newline and terminator is sent as it is, and printed twice, as what is sent and as
-- what is received; the client ends with code 0, closes its socket, and writes nothing behind its arrays.
pub client_main-echoes :
    (name server port : Str) (sys : ClientSys) (fd : ℕ) (text rest : List ℕ)
    → sys.resolves server port ≡ true
    → sys.socket ≡ some fd
    → sys.connect ≡ true
    → sys.stdin ≡ text ++ 10 ∷ rest
    → All IsText text
    → 0 < length text
    → length text + 1 < buf_size
    → buf_size ≤ length sys.junk
    → ((bytes : List ℕ) → sys.send bytes ≡ some (length bytes))
    → ((bytes : List ℕ) → sys.reply bytes ≡ some bytes)
    → client_main (name ∷ server ∷ port ∷ []) sys ≡ record {
      code = 0;
      out = codes "Sending " ++ ((text ++ 10 ∷ []) ++ (codes "Received " ++ (text ++ 10 ∷ [])));
      sent = text ++ 10 ∷ [];
      closed_fds = fd ∷ [];
      overrun = false;
    }
unfolding client_main open_client talk_to taken after_recv
client_main-echoes name server port sys fd text rest found given connected input t some_text h room
      takes echo =
    ground (
      arith,
      found,
      given,
      connected,
      message-text sys text rest t h room input,
      takes (text ++ 10 ∷ []),
      take_le (length (text ++ 10 ∷ [])) (text ++ 10 ∷ []) (omega arith),
      echo (text ++ 10 ∷ []),
      cstr-text text t,
      length-append text (10 ∷ []),
    )

-- What the peer of the client gets.
abbrev pub handed_over : ClientSys → List ℕ
handed_over sys = taken (message sys) (sys.send (message sys))

-- The client handed its message to `send` and closed `fd`.
abbrev pub Talked : ClientSys → ℕ → ClientEnd → Type 0
Talked sys fd o =
    (o.code ≡ 0)
    × (o.sent ≡ handed_over sys)
    × (o.closed_fds ≡ fd ∷ [])
    × ((tail : Str) × (o.out ≡ codes "Sending " ++ (message sys ++ tail)))
    × ((o.overrun ≡ true)
        ↔ ((got : List ℕ) × (sys.reply (handed_over sys) ≡ some got) × (length got ≡ buf_size)))

after_recv-Talked :
    (sys : ClientSys) (fd : ℕ) (o : Option (List ℕ))
    → sys.reply (handed_over sys) ≡ o
    → ((got : List ℕ) → o ≡ some got → length got ≤ buf_size)
    → Talked sys fd (after_recv fd (message sys) (handed_over sys) o)
unfolding after_recv
after_recv-Talked sys fd none e most = (
  refl,
  refl,
  refl,
  ([], ap (λ s. codes "Sending " ++ s) (sym (append-nil (message sys)))),
  (λ h. absurd (cc), λ (got, f, n). absurd (cc)),
)
after_recv-Talked sys fd (some bytes) e most =
    let le = most bytes refl in
    (
      refl,
      refl,
      refl,
      (if ltb 1 (length bytes) then codes "Received " ++ cstr bytes else [], refl),
      (
        λ h. (bytes, e, ground arith),
        λ (got, f, n).
            let same : got ≡ bytes = cc in
            let size : length bytes ≡ buf_size = rw same at n in ground arith,
      ),
    )

opened-Talked :
    (sys : ClientSys) (o : Option ℕ)
    → ((bytes got : List ℕ) → sys.reply bytes ≡ some got → length got ≤ buf_size)
    → (open_client sys o ≡ client_failed)
      ⊎ ((fd : ℕ) × (o ≡ some fd) × Talked sys fd (open_client sys o))
unfolding open_client talk_to
opened-Talked sys none most = inl refl
opened-Talked sys (some fd) most = choose sys.connect
  where
    talk : ClientEnd
    talk = talk_to sys fd (handed_over sys)

    choose :
        (b : Bool)
        → ((if b then talk else client_failed) ≡ client_failed)
          ⊎ ((n : ℕ) × (some fd ≡ some n) × Talked sys n (if b then talk else client_failed))
    choose true = inr (
      fd,
      refl,
      after_recv-Talked sys fd (sys.reply (handed_over sys)) refl (most (handed_over sys)),
    )
    choose false = inl refl

-- Whatever the system answers, if `recv` gives at most the BUF_SIZE bytes that it is asked for: the
-- client fails with code 1 and has sent nothing, or it ends with code 0, whether `send` took the whole message, a
-- part of it or failed; the peer has got just what `send` took, the socket was closed, once, and
-- the output starts with the whole message. Then it has written behind its
-- array exactly if the reply has BUF_SIZE bytes.
pub client_main-Ends :
    (argv : List Str) (sys : ClientSys)
    → ((bytes got : List ℕ) → sys.reply bytes ≡ some got → length got ≤ buf_size)
    → (client_main argv sys ≡ client_failed)
      ⊎ ((fd : ℕ) × (sys.socket ≡ some fd) × Talked sys fd (client_main argv sys))
unfolding client_main
client_main-Ends [] sys most = inl refl
client_main-Ends (a ∷ []) sys most = inl refl
client_main-Ends (a ∷ b ∷ []) sys most = inl refl
client_main-Ends (a ∷ b ∷ c ∷ []) sys most = elim (Bool-cases (sys.resolves b c)) [
  | inr e ↦ rw e (inl refl)
  | inl e ↦ rw e (opened-Talked sys sys.socket most)
]
client_main-Ends (a ∷ b ∷ c ∷ d ∷ e) sys most = inl refl
