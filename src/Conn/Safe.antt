-- ===== src/Conn/Safe.antt =====
-- The invariant of a connection over all its stages: its memory, and how its three state machines
pub mod Writes
-- stand to each other.
use liso.Base.{ℕ, ◌+◌, ◌≤◌, ◌<◌, ◌^◌, ◌≡◌, ◌≢◌, refl, ◌⊎◌, List, [], false, arith, length}
use liso.Buffer.{Buf, buf_rsize, Alloc, bufsz, buf_reset}
use liso.Request.{
  Req, ReqPhase, req_start, req_header, req_body, req_done, req_abort, phase_code, in_phase,
}
use liso.Request.Pack.{pack_headers}
use liso.Header.{Hdr}
use liso.Response.{RespPhase, resp_code}
use liso.Cgi.{CgiPhase, cgi_code}
use liso.Conn.{Conn}
use liso.Conn.Recv.{
  parse_received, received, parse_body, choose_server, count_body, split_body, keep_rest,
}
use liso.Conn.Recv.Sound.{Waits, Fits, RoomsOf, Sound}

-- Unless the request is aborted, the content of the buffer lies in BUFSZ bytes, and the request
-- stands to it as its phase says.
abbrev pub Content : ReqPhase → Req → Buf → Type 0
Content req_start r b = (b.sz ≤ bufsz) × Waits req_start r b
Content req_header r b = (b.sz ≤ bufsz) × Waits req_header r b
Content req_body r b = (b.sz ≤ bufsz) × Waits req_body r b
Content req_done r b = (b.sz ≤ bufsz) × Waits req_done r b
Content req_abort r b = Unit

-- With a request that is done.
pub done-Content :
    (p : ReqPhase) (r : Req) (b : Buf)
    → phase_code p ≡ 4
    → b.data_p ≤ b.sz
    → b.sz ≤ bufsz
    → Content p r b
done-Content req_start r b e le h = absurd (omega arith)
done-Content req_header r b e le h = absurd (omega arith)
done-Content req_body r b e le h = absurd (omega arith)
done-Content req_done r b e le h = (h, le)
done-Content req_abort r b e le h = tt

-- With a request that is aborted.
pub abort-Content : (p : ReqPhase) (r : Req) (b : Buf) → phase_code p ≡ 5 → Content p r b
abort-Content req_start r b e = absurd (omega arith)
abort-Content req_header r b e = absurd (omega arith)
abort-Content req_body r b e = absurd (omega arith)
abort-Content req_done r b e = absurd (omega arith)
abort-Content req_abort r b e = tt

-- With a buffer that was reset.
pub reset-Content :
    (p : ReqPhase) (r : Req) (b d : Buf) → d.data_p ≡ 0 → d.sz ≡ 0 → Content p r b → Content p r d
reset-Content req_start r b d e z w =
    (omega arith, (omega arith, λ k lo hi c. absurd (omega arith)))
reset-Content req_header r b d e z w =
    (omega arith, (omega arith, λ k lo hi c. absurd (omega arith)))
reset-Content req_body r b d e z (h, (le, nonneg)) = (omega arith, (omega arith, nonneg))
reset-Content req_done r b d e z w = omega arith
reset-Content req_abort r b d e z w = tt

-- With bytes of the content behind it.
pub advance-Content :
    (p : ReqPhase) (r : Req) (b : Buf) (n : ℕ)
    → n ≤ buf_rsize b
    → Content p r b
    → Content p r (record b { data_p = b.data_p + n })
unfolding buf_rsize
advance-Content req_start r b n most (h, (le, clean)) =
    (h, (omega arith, λ k lo hi. clean k (omega arith) hi))
advance-Content req_header r b n most (h, (le, clean)) =
    (h, (omega arith, λ k lo hi. clean k (omega arith) hi))
advance-Content req_body r b n most (h, (le, nonneg)) = (h, (omega arith, nonneg))
advance-Content req_done r b n most (h, le) = omega arith
advance-Content req_abort r b n most w = tt

-- The phases of request, response and CGI exchange, by the enumerators' numbers: a response that is
-- READY has no fields and the status 200; an aborted response has an aborted request; an exchange from READY to
-- CGI_TO_SRV goes with a response that is neither READY nor in its header; and while the output of
-- the program is relayed the request is aborted, or done with the buffer read from its start. The fields
-- and the length fit into what `resp_hdr` makes of them.
pub record OrdersOf (data_p : ℕ) (req : ReqPhase) (resp : RespPhase) (cgi : CgiPhase)
    (hdrs : List Hdr) (clen status : ℕ) : Type 0 where
  pub fresh : (resp_code resp ≢ 1) ⊎ ((hdrs ≡ []) × (status ≡ 200))
  pub aborted : (resp_code resp ≢ 4) ⊎ (phase_code req ≡ 5)
  pub dynamic : (cgi_code cgi < 2) ⊎ (4 < cgi_code cgi) ⊎ (2 < resp_code resp)
  pub relaying : (cgi_code cgi ≢ 4) ⊎ (phase_code req ≡ 5) ⊎ ((phase_code req ≡ 4) × (data_p ≡ 0))
  pub packed : length (pack_headers hdrs) ≤ 118
  pub small : clen < 2 ^ 63

abbrev pub Orders : Conn → Type 0
Orders c =
    OrdersOf c.buf.data_p c.req.phase c.resp.phase c.cgi.phase c.resp.hdrs c.resp.clen c.resp.status

pub record SafeOf (buf : Buf) (req : Req) (resp : RespPhase) (cgi : CgiPhase) (hdrs : List Hdr)
    (clen status : ℕ) : Type 0 where
  pub rooms : RoomsOf buf.mem req.last_buf
  pub content : Content req.phase req buf
  pub orders : OrdersOf buf.data_p req.phase resp cgi hdrs clen status

-- The invariant names the parts that it reads, so that it holds on when others change.
abbrev pub Safe : Conn → Type 0
Safe c = SafeOf c.buf c.req c.resp.phase c.cgi.phase c.resp.hdrs c.resp.clen c.resp.status

-- A connection that is sound for receiving.
pub Sound-Safe : (c : Conn) → Sound c → Orders c → Safe c
Sound-Safe c s o = record {
  rooms = record {
    allocated = s.fits.allocated;
    last_allocated = s.fits.last_allocated;
    last_high = s.fits.last_high;
  };
  content = go c.req.phase s.waits;
  orders = o;
}
  where
    go : (p : ReqPhase) → Waits p c.req c.buf → Content p c.req c.buf
    go req_start w = (s.fits.high, w)
    go req_header w = (s.fits.high, w)
    go req_body w = (s.fits.high, w)
    go req_done w = (s.fits.high, w)
    go req_abort w = tt

pub Safe-Sound : (c : Conn) → Safe c → in_phase c.req.phase req_abort ≡ false → Sound c
Safe-Sound c s e = go c.req.phase refl s.content
  where
    fits : c.buf.sz ≤ bufsz → Fits c
    fits h = record {
      high = h;
      allocated = s.rooms.allocated;
      last_allocated = s.rooms.last_allocated;
      last_high = s.rooms.last_high;
    }

    go : (p : ReqPhase) → c.req.phase ≡ p → Content p c.req c.buf → Sound c
    go req_start q (h, w) = record { fits = fits h; waits = rw q w }
    go req_header q (h, w) = record { fits = fits h; waits = rw q w }
    go req_body q (h, w) = record { fits = fits h; waits = rw q w }
    go req_done q (h, w) = record { fits = fits h; waits = rw q w }
    go req_abort q u = absurd (ground (arith, q))

-- The parts of `cn_parse_req`.
pub received-Orders :
    (c : Conn) (a : Alloc) (last : ℕ)
    → phase_code c.req.phase < 3
    → Orders c
    → Orders (parse_received c a last).0
unfolding parse_received received
received-Orders c a last early o = record {
  fresh = ground (arith, o.fresh);
  aborted = ground (arith, o.aborted);
  dynamic = ground (arith, o.dynamic);
  relaying = ground (arith, o.relaying);
  packed = ground (arith, o.packed);
  small = ground (arith, o.small);
}

pub body-Orders : (c : Conn) → Orders c → Orders (parse_body c)
unfolding parse_body choose_server count_body split_body keep_rest buf_reset
body-Orders c o = record {
  fresh = ground (arith, o.fresh);
  aborted = ground (arith, o.aborted);
  dynamic = ground (arith, o.dynamic);
  relaying = ground (arith, o.relaying);
  packed = ground (arith, o.packed);
  small = ground (arith, o.small);
}
