-- ===== src/Response/Build.antt =====
-- `fill_ctype`, `resp_mmap` and `resp_build`, over a file system that answers `stat`, `open` and
-- `mmap`, and `strftime(localtime(t))`.
pub mod Found
pub mod Small
use Prim.Native.String.{String}
use liso.Base.{
  ℕ, ◌-◌, ◌%◌, ◌^◌, Bool, false, not, ◌||◌, Option, none, some, List, [], ◌∷◌, ◌++◌, ◌==◌, codes,
  if◌then◌else◌, get_or, length,
}
use liso.CString.{Str}
use liso.Utils.{caseendswith, strncpy0}
use liso.Buffer.{Buf, mmbuf_new}
use liso.Header.{hdr_new, hdr_insert}
use liso.Request.{Req, m_get, m_head, is_method, req_urisz}
use liso.Response.{Resp}

pub record Stat : Type 0 where
  pub st_size : ℕ
  pub st_mtime : ℕ
  pub is_dir : Bool

-- The environment of a response: `none` is a failed call.
pub record Files : Type 0 where
  pub stat : Str → Option Stat
  pub can_open : Str → Bool
  pub mmap : Str → ℕ → Option (List ℕ)
  pub date : ℕ → Str
  pub www : Str

unfoldable pub fill_ctype : Str → Str
fill_ctype path =
    if ends ".html" || ends ".htm"
    then codes "text/html"
    else if ends ".css"
    then codes "text/css"
    else if ends ".js"
    then codes "application/javascript"
    else if ends "png"
    then codes "image/png"
    else if ends ".jpg" || ends ".jpeg"
    then codes "image/jpeg"
    else if ends ".gif"
    then codes "image/gif"
    else codes "text/plain"
  where
    ends : String → Bool
    ends suffix = caseendswith (some path) (some (codes suffix))

-- With the mapping made, the size is returned; without, `none` for -1.
unfoldable pub map_file : Resp → Option Buf → Stat → Resp × Option Stat
map_file r none st = (record r { mmbuf = none }, none)
map_file r (some b) st = (record r { mmbuf = some b }, some st)

unfoldable pub open_file : Files → Resp → Str → Option Stat → Resp × Option Stat
open_file fs r path none = (r, none)
open_file fs r path (some st) =
    if st.is_dir
    then (r, none)
    else if not (fs.can_open path)
    then (r, none)
    else map_file r (mmbuf_new (fs.mmap path st.st_size) st.st_size) st

unfoldable pub resp_mmap : Files → Resp → Str → Resp × Option Stat
resp_mmap fs r path = open_file fs r path (fs.stat path)

-- The loop over the default pages: the response, and the path and the file that it stops at.
unfoldable pub try_pages : Files → Resp → Str → List Str → Resp × Option (Str × Stat)
try_pages fs r dir [] = (r, none)
try_pages fs r dir (page ∷ pages) =
    let (r', found) = resp_mmap fs r (dir ++ page) in
    elim found [ some st ↦ (r', some (dir ++ page, st)) | none ↦ try_pages fs r' dir pages ]

abbrev pub default_pages : List Str
default_pages = codes "index.html" ∷ codes "index.htm" ∷ []

-- The path of a directory, with its slash.
unfoldable pub with_slash : Str → Str
with_slash path = if get_or path (length path - 1) 0 == b'/' then path else path ++ b'/' ∷ []

unfoldable pub request_path : Files → Req → Str
request_path fs req = strncpy0 fs.www req_urisz ++ strncpy0 req.uri req_urisz

-- The file that is served: the path itself, or a default page below it.
unfoldable pub find_file : Files → Resp → Str → Resp × Option (Str × Stat)
find_file fs r path =
    let (r', found) = resp_mmap fs r path in
    elim found [
      | some st ↦ (r', some (path, st))
      | none ↦ try_pages fs r' (with_slash path) default_pages
    ]

unfoldable pub describe : Files → Resp → Req → Str → Stat → Resp
describe fs r req path st =
    if is_method req.method m_get || is_method req.method m_head
    then record r {
      clen = st.st_size;
      hdrs =
          hdr_insert
            (hdr_insert r.hdrs (hdr_new (some (codes "Content-Type")) (some (fill_ctype path))))
            (hdr_new (some (codes "Last-Modified")) (some (fs.date st.st_mtime)));
    }
    else record r { clen = st.st_size }

-- The result is a 32-bit enumeration, so that `return st.st_size` keeps the low half of the size.
unfoldable pub resp_build : Files → Resp → Req → Resp × Bool
resp_build fs resp req =
    let (r, found) = find_file fs (record resp { alive = req.alive }) (request_path fs req) in
    elim found [
      | none ↦ (record r { status = 404 }, false)
      | some (path, st) ↦ (describe fs r req path st, not (st.st_size % 2 ^ 32 == 0))
    ]
