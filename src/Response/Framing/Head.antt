-- ===== src/Response/Framing/Head.antt =====
-- What `resp_hdr` of response.c writes, as lines.
use liso.Base.{
  ℕ, zero, suc, ◌+◌, ◌/◌, ◌%◌, ◌≡◌, ◌≢◌, refl, sym, ap, ◌∙◌, Bool, true, false, ◌||◌, Option, some,
  List, [], ◌∷◌, ◌++◌, ◌==◌, arith, if◌then◌else◌, ltb, All, All-append, codes, inl, inr,
  Bool-cases,
}
use mathlib.Core.List.{append_assoc}
use liso.CString.{Str, digits_value, strncaseeq, lower}
use liso.CString.Decimal.{print_nat, digits_fuel, digits_value-print_nat}
use liso.Header.{Hdr}
use liso.Request.Pack.{pack_headers, crlf}
use liso.Response.{Resp, resp_title}
use liso.Response.Serial.{resp_hdr}
use liso.Response.Framing.{is_length, told, is_empty, status_of, length_key}
use liso.Response.Framing.Lines.{OneLine, IsField, join, last_told}

abbrev pub field_line : Hdr → Str
field_line h = h.key ++ (codes ": " ++ h.val)

abbrev pub fields_of : List Hdr → List Str
fields_of [] = []
fields_of (h ∷ hs) = field_line h ∷ fields_of hs

abbrev pub connection : Bool → Str
connection b = if b then codes "keep-alive" else codes "close"

abbrev pub status_line : ℕ → Str
status_line code = codes "HTTP/1.1 " ++ resp_title code

abbrev pub lines_of : Resp → Str → List Str
lines_of r now =
    (codes "Date: " ++ now)
    ∷ codes "Server: Liso/1.0"
    ∷ (codes "Connection: " ++ connection r.alive)
    ∷ (length_key ++ print_nat r.clen)
    ∷ fields_of r.hdrs

pack_headers-join :
    (hs : List Hdr) (t : List ℕ)
    → (pack_headers hs ++ crlf) ++ t ≡ join (fields_of hs) (13 ∷ 10 ∷ t)
unfolding pack_headers
pack_headers-join [] t = refl
pack_headers-join (h ∷ hs) t = simp (append_assoc, sym (pack_headers-join hs t))

pub resp_hdr-join :
    (r : Resp) (now : Str) (t : List ℕ)
    → resp_hdr r now ++ t ≡ status_line r.status ++ 13 ∷ 10 ∷ join (lines_of r now) (13 ∷ 10 ∷ t)
unfolding resp_hdr
resp_hdr-join r now t = simp (append_assoc, sym (pack_headers-join r.hdrs t))

digits-OneLine : (f n : ℕ) → OneLine (digits_fuel f n)
unfolding digits_fuel
digits-OneLine zero n = tt
digits-OneLine (suc f) n = elim (Bool-cases (ltb n 10)) [
  | inl e ↦ rw e (omega arith)
  | inr e ↦ rw e (
      All-append (λ c. c ≢ 13) (digits_fuel f (n / 10)) ((b'0' + n % 10) ∷ [])
        (digits-OneLine f (n / 10)) (omega arith))
]

title-OneLine : (code : ℕ) → OneLine (resp_title code)
unfolding resp_title
title-OneLine code = ground arith

-- A line that is not empty and tells no length.
abbrev pub IsPlain : Str → Type 0
IsPlain line = OneLine line × (is_empty line ≡ false) × (is_length line ≡ false)

date-IsPlain : (now : Str) → OneLine now → IsPlain (codes "Date: " ++ now)
unfolding is_empty is_length strncaseeq lower
date-IsPlain now o = (All-append (λ c. c ≢ 13) (codes "Date: ") now (omega arith) o, refl, refl)

server-IsPlain : IsPlain (codes "Server: Liso/1.0")
unfolding is_empty is_length strncaseeq lower
server-IsPlain = (omega arith, refl, refl)

connection-IsPlain : (b : Bool) → IsPlain (codes "Connection: " ++ connection b)
unfolding is_empty is_length strncaseeq lower
connection-IsPlain true = (omega arith, refl, refl)
connection-IsPlain false = (omega arith, refl, refl)

length_line-IsField : (n : ℕ) → IsField (length_key ++ print_nat n)
unfolding is_empty print_nat
length_line-IsField n = (
  All-append (λ c. c ≢ 13) length_key (print_nat n) (omega arith) (digits-OneLine (suc n) n),
  refl,
)

length_line-told : (len : Option ℕ) (n : ℕ) → told len (length_key ++ print_nat n) ≡ some n
unfolding told is_length strncaseeq lower
length_line-told len n = ap some (digits_value-print_nat n)

plain-told : (len : Option ℕ) (line : Str) → is_length line ≡ false → told len line ≡ len
unfolding told
plain-told len line e = rw e refl

plains-told : (len : Option ℕ) (lines : List Str) → All IsPlain lines → last_told len lines ≡ len
plains-told len [] a = refl
plains-told len (line ∷ lines) ((o, ne, e), a) =
    plains-told (told len line) lines a ∙ plain-told len line e

plains-IsField : (lines : List Str) → All IsPlain lines → All IsField lines
plains-IsField [] a = tt
plains-IsField (line ∷ lines) ((o, ne, e), a) = ((o, ne), plains-IsField lines a)

module _ (r : Resp) (now : Str) (date : OneLine now) (fields : All IsPlain (fields_of r.hdrs)) where
  pub lines-IsField : All IsField (lines_of r now)
  lines-IsField =
      let d = date-IsPlain now date in
      let c = connection-IsPlain r.alive in
      (
        (d.0, d.1),
        (
          (server-IsPlain.0, server-IsPlain.1),
          ((c.0, c.1), (length_line-IsField r.clen, plains-IsField (fields_of r.hdrs) fields)),
        ),
      )

  pub lines-told : (len : Option ℕ) → last_told len (lines_of r now) ≡ some r.clen
  lines-told len =
      ap (λ o. last_told o (fields_of r.hdrs)) (length_line-told _ r.clen)
      ∙ plains-told (some r.clen) (fields_of r.hdrs) fields

-- The status that a title shows: that of a code which the server knows, and else 500.
abbrev pub shown : ℕ → ℕ
shown code =
    if code == 200 || code == 400 || code == 404 || code == 411 || code == 501 || code == 503
    then code
    else 500

pub status_line-shown : (code : ℕ) → status_of (status_line code) ≡ shown code
unfolding status_of resp_title digits_value
status_line-shown code = ground arith

pub status_line-OneLine : (code : ℕ) → OneLine (status_line code)
status_line-OneLine code =
    All-append (λ c. c ≢ 13) (codes "HTTP/1.1 ") (resp_title code) (omega arith)
      (title-OneLine code)

pub status_line-version : (code : ℕ) → strncaseeq (status_line code) (codes "HTTP/1.1 ") 9 ≡ true
unfolding strncaseeq lower
status_line-version code = refl
