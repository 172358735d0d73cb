-- ===== src/Response/Framing/Fields.antt =====
-- The header fields that `resp_build` of response.c gives a response are plain lines.
use liso.Base.{
  ℕ, ◌≡◌, ◌≢◌, refl, some, List, [], ◌∷◌, ◌++◌, arith, take, All, All-append, All-take, codes,
  Bool-cases, inl, inr, ◌==◌,
}
use liso.CString.{Str, cstr, strncaseeq, lower}
use liso.Utils.{strncpy0}
use liso.Buffer.{mmbuf_new}
use liso.Header.{Hdr, hdr_new, hdr_insert, copy_field, hdr_valsz}
use liso.Request.{Req, m_get}
use liso.Response.{Resp}
use liso.Response.Build.{
  Files, Stat, map_file, open_file, resp_mmap, find_file, request_path, describe, resp_build,
  fill_ctype,
}
use liso.Response.Build.Found.{IsFile}
use liso.Response.Framing.{is_empty, is_length}
use liso.Response.Framing.Lines.{OneLine}
use liso.Response.Framing.Head.{fields_of, IsPlain}

cstr-OneLine : (s : List ℕ) → OneLine s → OneLine (cstr s)
unfolding cstr
cstr-OneLine [] o = tt
cstr-OneLine (c ∷ s) (n, o) = elim (Bool-cases (c == 0)) [
  | inl e ↦ rw e tt
  | inr e ↦ rw e (n, cstr-OneLine s o)
]

ctype-OneLine : (path : Str) → OneLine (fill_ctype path)
unfolding fill_ctype
ctype-OneLine path = ground arith

abbrev pub modified_field : Str → Hdr
modified_field date = hdr_new (some (codes "Last-Modified")) (some date)

abbrev pub type_field : Str → Hdr
type_field path = hdr_new (some (codes "Content-Type")) (some (fill_ctype path))

modified-IsPlain :
    (date : Str)
    → OneLine date
    → IsPlain ((modified_field date).key ++ (codes ": " ++ (modified_field date).val))
unfolding hdr_new copy_field strncpy0 cstr is_empty is_length strncaseeq lower
modified-IsPlain date o = (
  All-append (λ c. c ≢ 13) (codes "Last-Modified: ") (cstr (take hdr_valsz date)) (omega arith)
      (cstr-OneLine (take hdr_valsz date) (All-take (λ c. c ≢ 13) hdr_valsz date o)),
  refl,
  refl,
)

type-IsPlain :
    (path : Str) → IsPlain ((type_field path).key ++ (codes ": " ++ (type_field path).val))
unfolding hdr_new copy_field strncpy0 cstr is_empty is_length strncaseeq lower
type-IsPlain path =
    let text = fill_ctype path in
    (
      All-append (λ c. c ≢ 13) (codes "Content-Type: ") (cstr (take hdr_valsz text)) (omega arith)
          (cstr-OneLine (take hdr_valsz text)
            (All-take (λ c. c ≢ 13) hdr_valsz text (ctype-OneLine path))),
      refl,
      refl,
    )

-- A GET of a file, from a response without fields.
resp_build-fields :
    (fs : Files) (r : Resp) (req : Req) (st : Stat) (bytes : List ℕ)
    → IsFile fs (request_path fs req) st bytes
    → req.method ≡ m_get
    → r.hdrs ≡ []
    → (resp_build fs r req).0.hdrs
      ≡ modified_field (fs.date st.st_mtime) ∷ type_field (request_path fs req) ∷ []
unfolding resp_build find_file describe resp_mmap open_file mmbuf_new map_file hdr_insert
resp_build-fields fs r req st bytes f get empty = ground arith

pub built-IsPlain :
    (fs : Files) (r : Resp) (req : Req) (st : Stat) (bytes : List ℕ)
    → IsFile fs (request_path fs req) st bytes
    → req.method ≡ m_get
    → r.hdrs ≡ []
    → OneLine (fs.date st.st_mtime)
    → All IsPlain (fields_of (resp_build fs r req).0.hdrs)
built-IsPlain fs r req st bytes f get empty o =
    rw (resp_build-fields fs r req st bytes f get empty)
      (modified-IsPlain (fs.date st.st_mtime) o, (type-IsPlain (request_path fs req), tt))
