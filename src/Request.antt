-- ===== src/Request.antt =====
-- request.h, and what request.c does with a request besides parsing and packing it.
pub mod Scan
pub mod Parse
pub mod Pack
pub mod Headers
pub mod StartLine
pub mod RoundTrip
use liso.Base.{
  ℕ, zero, suc, ◌+◌, ◌-◌, Bool, true, false, Option, none, some, List, [], ◌∷◌, ◌++◌, ◌==◌, set,
  take, ltb, length, ◌||◌, ℤ, pos, negsuc,
}
use liso.CString.{Str}
use liso.Buffer.{Buf, Alloc, buf_new}
use liso.Header.{Hdr, hdr_reset}

-- `REQ_URISZ`, `REQ_VERSZ` and `REQ_HOSTSZ`
abbrev pub req_urisz : ℕ
req_urisz = 2048

abbrev pub req_versz : ℕ
req_versz = 32

abbrev pub req_hostsz : ℕ
req_hostsz = 256

pub data Method : Type 0 where
  m_get m_head m_post m_other : Method

pub data Scheme : Type 0 where
  http https : Scheme

pub data ReqPhase : Type 0 where
  req_start req_header req_body req_done req_abort : ReqPhase

pub data ReqType : Type 0 where
  req_static req_dynamic : ReqType

-- The whole array `uri`, since a parser looks behind the terminator; `params` is an offset in it.
-- Of the other strings only the text. `overrun` stands for no field: a copy into `host` went past
-- the array. C leaves the state undefined then; here `host` is cut and the flag remembers that the state
-- is no longer that of the program. No operation takes the flag back.
pub record Req : Type 0 where
  pub addr : Str
  pub port : ℕ
  pub method : Method
  pub version : Str
  pub scheme : Scheme
  pub uri : List ℕ
  pub params : Option ℕ
  pub host : Str
  pub overrun : Bool
  pub clen : ℤ
  pub alive : Bool
  pub hdrs : List Hdr
  pub rsize : ℤ
  pub phase : ReqPhase
  pub last_buf : Buf
  pub type_ : ReqType

-- The enumerators' numbers, by which the source compares them.
abbrev pub phase_code : ReqPhase → ℕ
phase_code req_start = 1
phase_code req_header = 2
phase_code req_body = 3
phase_code req_done = 4
phase_code req_abort = 5

abbrev pub in_phase : ReqPhase → ReqPhase → Bool
in_phase a b = phase_code a == phase_code b

abbrev pub is_method : Method → Method → Bool
is_method m_get m_get = true
is_method m_head m_head = true
is_method m_post m_post = true
is_method m_other m_other = true
is_method _ _ = false

abbrev pub is_static : ReqType → Bool
is_static req_static = true
is_static req_dynamic = false

unfoldable pub req_reset : Req → Req
req_reset r = record r {
  method = m_other;
  uri = set r.uri 0 0;
  params = none;
  version = [];
  host = [];
  clen = negsuc 0;
  rsize = pos 0;
  alive = true;
  hdrs = hdr_reset r.hdrs;
  phase = req_start;
  type_ = req_static;
}

-- `raw` is what `malloc` returns for the struct: every field that `req_new` leaves unset.
unfoldable pub req_new : Req → Alloc → Req
req_new raw a =
    req_reset (record raw { scheme = http; hdrs = []; last_buf = buf_new a; overrun = false })

unfoldable pub set_host : Req → Str → Req
set_host r s = record r {
  host = take req_hostsz s;
  overrun = r.overrun || ltb req_hostsz (length s);
}
