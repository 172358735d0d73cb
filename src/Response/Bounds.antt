-- ===== src/Response/Bounds.antt =====
-- The lengths of what response.c writes: titles, pages, header fields and whole headers.
use liso.Base.{
  ℕ, zero, suc, ◌+◌, ◌/◌, ◌%◌, ◌^◌, ◌≤◌, ◌<◌, arith, length, length-append, length-take, take, [],
  ◌∷◌, some, List, codes, ◌++◌, Bool, true, false, if◌then◌else◌,
}
use liso.CString.{Str, cstr}
use liso.CString.Decimal.{digits_fuel, print_nat}
use liso.Header.{hdr_new, copy_field}
use liso.Request.Pack.{pack_headers, crlf}
use liso.Response.{Resp, resp_title, resp_msg, page}
use liso.Response.Build.{fill_ctype}
use liso.Response.Serial.{resp_hdr}

digits-le : (k f n : ℕ) → n < 10 ^ suc k → length (digits_fuel f n) ≤ suc k
unfolding digits_fuel
digits-le k zero n h = omega arith
digits-le zero (suc f) n h = ground arith
digits-le (suc k) (suc f) n h = ground (
  arith,
  digits-le k f (n / 10) (omega arith),
  length-append (digits_fuel f (n / 10)) ((b'0' + n % 10) ∷ []),
)

pub length-print_nat : (n : ℕ) → n < 2 ^ 63 → length (print_nat n) ≤ 19
unfolding print_nat
length-print_nat n h = digits-le 18 (suc n) n (omega arith)

length-cstr : (s : List ℕ) → length (cstr s) ≤ length s
unfolding cstr
length-cstr [] = omega arith
length-cstr (c ∷ s) = ground (arith, length-cstr s)

length-copy_field : (s : Str) (n : ℕ) → length (copy_field (some s) n) ≤ length s
unfolding copy_field
length-copy_field s n = omega (arith, length-cstr (take n s), length-take n s)

length-fill_ctype : (path : Str) → length (fill_ctype path) ≤ 22
unfolding fill_ctype
length-fill_ctype path = ground arith

length-resp_title : (code : ℕ) → length (resp_title code) ≤ 25
unfolding resp_title
length-resp_title code = ground arith

pub length-resp_msg : (code : ℕ) → length (resp_msg code) ≤ 300
unfolding resp_msg page
length-resp_msg code = ground arith

-- The field with the type of the content, and then the one with the date.
pub length-file_fields :
    (path date : Str)
    → length date < 64
    → length (
        pack_headers (
          hdr_new (some (codes "Last-Modified")) (some date)
          ∷ hdr_new (some (codes "Content-Type")) (some (fill_ctype path))
          ∷ []))
      ≤ 118
unfolding pack_headers hdr_new
length-file_fields path date h =
    let ctype = copy_field (some (fill_ctype path)) 4096 in
    let modified = copy_field (some date) 4096 in
    let last = codes ": " ++ (ctype ++ (crlf ++ [])) in
    let first = copy_field (some (codes "Content-Type")) 512 ++ last in
    omega (
      arith,
      length-append (copy_field (some (codes "Last-Modified")) 512)
          (codes ": " ++ (modified ++ (crlf ++ first))),
      length-append modified (crlf ++ first),
      length-append (copy_field (some (codes "Content-Type")) 512) last,
      length-append ctype (crlf ++ []),
      length-copy_field (codes "Last-Modified") 512,
      length-copy_field (codes "Content-Type") 512,
      length-copy_field (fill_ctype path) 4096,
      length-copy_field date 4096,
      length-fill_ctype path,
    )

length-connection : (b : Bool) → length (if b then codes "keep-alive" else codes "close") ≤ 10
length-connection true = omega arith
length-connection false = omega arith

-- A header of `resp_hdr`, by its date, its length field and its header fields.
pub length-resp_hdr :
    (r : Resp) (date : Str)
    → length date < 64
    → r.clen < 2 ^ 63
    → length (pack_headers r.hdrs) ≤ 118
    → length (resp_hdr r date) ≤ 306
unfolding resp_hdr
length-resp_hdr r date h small packed =
    let tail4 = crlf ++ (pack_headers r.hdrs ++ crlf) in
    let tail3 = crlf ++ (codes "Content-Length: " ++ (print_nat r.clen ++ tail4)) in
    let connection = if r.alive then codes "keep-alive" else codes "close" in
    let tail2 =
      crlf
      ++ (codes "Server: Liso/1.0" ++ (crlf ++ (codes "Connection: " ++ (connection ++ tail3)))) in
    let tail1 = crlf ++ (codes "Date: " ++ (date ++ tail2)) in
    omega (
      arith,
      length-append (resp_title r.status) tail1,
      length-append date tail2,
      length-append connection tail3,
      length-append (print_nat r.clen) tail4,
      length-append (pack_headers r.hdrs) crlf,
      length-resp_title r.status,
      length-connection r.alive,
      length-print_nat r.clen small,
    )
