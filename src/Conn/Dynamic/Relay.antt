-- ===== src/Conn/Dynamic/Relay.antt =====
-- The output of a CGI program on its way to the client: `cn_stream_from_cgi` and `cn_serve_dynamic` in turns.
use liso.Base.{
  take_le, ℕ, suc, ◌+◌, ◌-◌, ◌^◌, ◌%◌, ◌≤◌, ◌<◌, ◌≡◌, refl, ap, ◌∙◌, sym, Bool, true, false, some,
  List, [], ◌∷◌, ◌++◌, ◌==◌, arith, length,
}
use mathlib.Core.List.{append_assoc, append-nil}
use liso.Buffer.{bufsz, buf_rsize, slice}
use liso.Buffer.Laws.{length-write_at, take-drop-write_at}
use liso.Cgi.{cgi_cgi_to_srv, buf_recv}
use liso.Conn.{Ctx, Ret, alive, Net, SuccCb, ErrCb, FatCb, smart_send}
use liso.Conn.Static.{send_some}
use liso.Conn.Dynamic.{cn_stream_from_cgi, cn_serve_dynamic, set_cgi}

-- A socket that takes all that it is given, if that is something.
abbrev pub TakesAll : Net → Type 0
TakesAll net =
    (ssl : Bool) (c : ℕ) (cs : List ℕ) → smart_send net ssl (c ∷ cs) ≡ some (suc (length cs))

-- What a read gives: at least one byte, and at most BUFSZ.
pub record Chunk : Type 0 where
  pub head : ℕ
  pub tail : List ℕ
  pub fits : length tail < bufsz

abbrev pub bytes_of : Chunk → List ℕ
bytes_of k = k.head ∷ k.tail

abbrev pub output : List Chunk → List ℕ
output [] = []
output (k ∷ ks) = bytes_of k ++ output ks

module _ {W : Type 0} where
  -- The exchange awaits output, with the buffer emptied by `cn_stream_to_cgi`.
  pub record Awaits (x : Ctx W) : Type 0 where
    pub phase : x.conn.cgi.phase ≡ cgi_cgi_to_srv
    pub start : x.conn.buf.data_p ≡ 0
    pub space : bufsz ≤ length x.conn.buf.mem

  -- One read and one send for each chunk, and then the read that gives 0 and the call behind it.
  unfoldable pub relay : Net → SuccCb W → ErrCb W → FatCb W → List Chunk → Ctx W → Ret × Ctx W
  relay net succ_cb err_cb fat_cb [] x =
      cn_serve_dynamic (cn_stream_from_cgi x (some []) err_cb).1 net succ_cb fat_cb
  relay net succ_cb err_cb fat_cb (k ∷ ks) x =
      relay net succ_cb err_cb fat_cb ks
        (cn_serve_dynamic (cn_stream_from_cgi x (some (bytes_of k)) err_cb).1 net succ_cb fat_cb).1

  module _ (net : Net) (succ_cb : SuccCb W) (err_cb : ErrCb W) (fat_cb : FatCb W)
      (all : TakesAll net) where
    sent_whole :
        (y : Ctx W) (c : ℕ) (cs : List ℕ)
        → send_some y net (c ∷ cs) ≡ (some (suc (length cs)), record y { sent = y.sent ++ c ∷ cs })
    unfolding send_some
    sent_whole y c cs = ground (arith, all y.conn.ssl c cs, take_le (length cs) cs (omega arith))

    serve_whole :
        (y : Ctx W) (c : ℕ) (cs : List ℕ)
        → buf_rsize y.conn.buf ≡ suc (length cs)
        → slice y.conn.buf.mem y.conn.buf.data_p (suc (length cs)) ≡ c ∷ cs
        → cn_serve_dynamic y net succ_cb fat_cb ≡ (
          alive,
          set_cgi
              (record y { sent = y.sent ++ c ∷ cs })
              (record y.conn.cgi { buf_phase = buf_recv }),
        )
    unfolding cn_serve_dynamic
    serve_whole y c cs size bytes =
        let sends : send_some y net (c ∷ cs)
            ≡ (some (suc (length cs)), record y { sent = y.sent ++ c ∷ cs }) =
          sent_whole y c cs in
        let same : (suc (length cs) == suc (length cs)) ≡ true = ground arith in
        let some_left : (suc (length cs) == 0) ≡ false = ground arith in
        rw (size, bytes, some_left, sends, size, bytes, sends, same) refl

    -- A chunk goes through, and the exchange awaits the next one.
    chunk_sent :
        (k : Chunk) (x : Ctx W)
        → Awaits x
        → let y =
            (cn_serve_dynamic
              (cn_stream_from_cgi x (some (bytes_of k)) err_cb).1
              net
              succ_cb
              fat_cb).1 in
          Awaits y × (y.sent ≡ x.sent ++ bytes_of k)
    unfolding cn_stream_from_cgi buf_rsize set_cgi
    chunk_sent k x a =
        let f = k.fits in
        let space = a.space in
        let start = a.start in
        let y = (cn_stream_from_cgi x (some (bytes_of k)) err_cb).1 in
        let size : buf_rsize y.conn.buf ≡ suc (length k.tail) = rw start (omega arith) in
        let bytes : slice y.conn.buf.mem y.conn.buf.data_p (suc (length k.tail)) ≡ bytes_of k =
          rw start (take-drop-write_at x.conn.buf.mem 0 (bytes_of k) (omega arith)) in
        let call = serve_whole y k.head k.tail size bytes in
        let some_bytes : (suc (length k.tail) == 0) ≡ false = ground arith in
        rw call (
          record {
            phase = rw some_bytes a.phase;
            start = start;
            space = omega (arith, length-write_at x.conn.buf.mem 0 (bytes_of k));
          },
          refl,
        )

    -- The end of the output.
    end_sent :
        (x : Ctx W)
        → Awaits x
        → (y : Ctx W) × (cn_serve_dynamic
              (cn_stream_from_cgi x (some []) err_cb).1
              net
              succ_cb
              fat_cb
            ≡ succ_cb y)
          × (y.sent ≡ x.sent)
    unfolding cn_stream_from_cgi cn_serve_dynamic buf_rsize
    end_sent x a =
        let start = a.start in
        let none_left : (0 + 2 ^ 64 - x.conn.buf.data_p) % 2 ^ 64 ≡ 0 = rw start (omega arith) in
        ((cn_stream_from_cgi x (some []) err_cb).1, rw none_left refl, refl)

    -- If an exchange awaits output, and the socket takes all that it is given in each call: when each read of the program's output is
    -- followed by a send, and the read that gives 0 by the last call, that call is the success callback, and the client
    -- has got exactly what the program wrote, in order.
    pub relay-output :
        (ks : List Chunk) (x : Ctx W)
        → Awaits x
        → (y : Ctx W) × (relay net succ_cb err_cb fat_cb ks x ≡ succ_cb y)
          × (y.sent ≡ x.sent ++ output ks)
    unfolding relay
    relay-output [] x a =
        let (y, call, same) = end_sent x a in (y, call, same ∙ sym (append-nil x.sent))
    relay-output (k ∷ ks) x a =
        let (next, first) = chunk_sent k x a in
        let (y, call, more) = relay-output ks _ next in
        (
          y,
          call,
          more ∙ (ap (λ s. s ++ output ks) first ∙ append_assoc x.sent (bytes_of k) (output ks)),
        )
