-- ===== src/Request/Headers/Line.antt =====
-- One line of a header, as `req_pack` and `resp_hdr` write it, before `parse_line` of request.c.
use liso.Base.{
  take_le, ℕ, zero, suc, ◌+◌, ◌-◌, ◌≤◌, ◌<◌, ◌≡◌, refl, ◌∙◌, sym, Bool, true, false, not, [], ◌∷◌,
  ◌++◌, ◌==◌, arith, length, take, drop, get_or, length-append, take-append_length,
  drop-append_length, ltb, codes, some, min,
}
use mathlib.Core.Path.{ap₂}
use mathlib.Core.List.{append_assoc}
use liso.CString.{Str, is_space, strcaseeq}
use liso.Utils.{strncpy0}
use liso.Buffer.{Buf, buf_end, slice, peek}
use liso.Header.{Hdr, hdr_new, hdr_insert, hdr_keysz, hdr_valsz, copy_field}
use liso.Request.{Req}
use liso.Request.Scan.{run_length, issp, skip, proceed_line, eol}
use liso.Request.Scan.Bounds.{get_or-drop}
use liso.Request.Parse.{go, take_header, val_size, parse_field, parse_line}
use liso.Request.Headers.{
  Passes, Passes-append, run_length-take, cstr-Passes, drop_add, get_or-append, get_or-append_lt,
  IsTrimmed, strstrip-IsTrimmed, strstrip_framed,
}

-- A byte that is not the terminator, not a colon, not a newline.
abbrev pub not_nul : ℕ → Bool
not_nul c = not (c == 0)

abbrev pub not_colon : ℕ → Bool
not_colon c = not (c == b':')

abbrev pub not_newline : ℕ → Bool
not_newline c = not (c == 10)

-- A key and a value that a line can carry.
pub record IsField (h : Hdr) : Type 0 where
  pub key_trimmed : IsTrimmed h.key
  pub key_text : Passes not_nul h.key × Passes not_colon h.key × Passes not_newline h.key
  pub key_fits : length h.key ≤ hdr_keysz
  pub val_trimmed : IsTrimmed h.val
  pub val_text : Passes not_nul h.val × Passes not_newline h.val
  pub val_fits : length h.val + 2 ≤ hdr_valsz

-- A header whose key has no meaning of its own for the parser.
pub record IsPlain (h : Hdr) : Type 0 where
  pub field : IsField h
  pub not_host : strcaseeq h.key (codes "Host") ≡ false
  pub not_length : strcaseeq h.key (codes "Content-Length") ≡ false
  pub not_connection : strcaseeq h.key (codes "Connection") ≡ false

-- The value as it stands behind the colon, and the line in front of its newline.
abbrev pub framed : Str → Str
framed val = 32 ∷ (val ++ 13 ∷ [])

abbrev pub line : Hdr → Str
line h = h.key ++ b':' ∷ framed h.val

pub length-line : (h : Hdr) → length (line h) ≡ length h.key + length h.val + 3
length-line h =
    omega (arith, length-append h.key (b':' ∷ framed h.val), length-append h.val (13 ∷ []))

line-Passes : (h : Hdr) → IsField h → Passes not_newline (line h)
line-Passes h v =
    Passes-append not_newline h.key (b':' ∷ framed h.val) v.key_text.2
      (refl, (refl, Passes-append not_newline h.val (13 ∷ []) v.val_text.1 (refl, tt)))

framed-Passes : (h : Hdr) → IsField h → Passes not_nul (framed h.val)
framed-Passes h v = (refl, Passes-append not_nul h.val (13 ∷ []) v.val_text.0 (refl, tt))

issp-is_space : (c : ℕ) → is_space c ≡ false → issp c ≡ false
unfolding issp is_space
issp-is_space c h = ground arith

strncpy0_fits : (s : Str) (n : ℕ) → Passes not_nul s → length s ≤ n → strncpy0 s n ≡ s
unfolding strncpy0
strncpy0_fits s n p h = rw (take_le n s h) (cstr-Passes s p)

pub strncpy0-append : (s t : Str) → Passes not_nul s → strncpy0 (s ++ t) (length s) ≡ s
unfolding strncpy0
strncpy0-append s t p = rw (take-append_length s t) (cstr-Passes s p)

pub run_length_first :
    (test : ℕ → Bool) (s : Str) (n : ℕ)
    → test (get_or s 0 0) ≡ false
    → run_length test (take n s) ≡ 0
unfolding run_length
run_length_first test s zero h = refl
run_length_first test [] (suc n) h = refl
run_length_first test (c ∷ s) (suc n) h = rw h refl

-- `hdr_new` keeps a key and a value that fit.
hdr_new-IsField : (h : Hdr) → IsField h → hdr_new (some h.key) (some h.val) ≡ h
unfolding hdr_new copy_field
hdr_new-IsField h v =
    ap₂ (λ key val. record { key = key; val = val })
      (strncpy0_fits h.key hdr_keysz v.key_text.0 v.key_fits)
      (strncpy0_fits h.val hdr_valsz v.val_text.0 (let f = v.val_fits in omega arith))

-- The line of a header stands at `data_p`, with its newline and `rest` behind it, in the content.
module _ (h : Hdr) (v : IsField h) (b : Buf) (rest : Str)
    (text : drop b.data_p b.mem ≡ line h ++ 10 ∷ rest)
    (inside : b.data_p + length (line h) < b.sz) where
  abbrev behind : Buf
  behind = record b { data_p = b.data_p + length (line h) }

  first_solid : issp (get_or (drop b.data_p b.mem) 0 0) ≡ false
  first_solid =
      let k = v.key_trimmed.some_bytes in
      rw
        (
          text,
          get_or-append_lt (line h) (10 ∷ rest) 0 (omega (arith, length-line h)),
          get_or-append_lt h.key (b':' ∷ framed h.val) 0 k,
        )
        (issp-is_space (get_or h.key 0 0) v.key_trimmed.first)

  proceed_line_lem : proceed_line b ≡ (b.data_p, behind)
  unfolding proceed_line skip buf_end
  proceed_line_lem =
      let none_skipped =
        run_length_first issp (drop b.data_p b.mem) (b.sz - b.data_p) first_solid in
      let same : b.data_p + 0 ≡ b.data_p = omega arith in
      let all : run_length not_newline (slice b.mem b.data_p (b.sz - b.data_p)) ≡ length (line h) =
        rw text (
          run_length-take not_newline (line h) 10 rest (b.sz - b.data_p) (line-Passes h v) refl
            (omega arith)) in
      rw (none_skipped, same, all) refl

  key_first : drop b.data_p b.mem ≡ h.key ++ b':' ∷ (framed h.val ++ 10 ∷ rest)
  key_first = text ∙ append_assoc h.key (b':' ∷ framed h.val) (10 ∷ rest)

  colon :
      run_length not_colon (slice b.mem b.data_p (b.data_p + length (line h) - b.data_p))
      ≡ length h.key
  colon = rw key_first (
      run_length-take not_colon h.key b':' (framed h.val ++ 10 ∷ rest) _ v.key_text.1 refl
        (omega (arith, length-line h)))

  at_colon : peek b (b.data_p + length h.key) ≡ b':'
  at_colon =
      sym (get_or-drop b.mem b.data_p (length h.key))
      ∙ rw key_first (get_or-append h.key b':' (framed h.val ++ 10 ∷ rest))

  key_text_lem : strncpy0 (drop b.data_p b.mem) (length h.key) ≡ h.key
  key_text_lem = rw key_first (strncpy0-append h.key _ v.key_text.0)

  val_text_lem :
      strncpy0 (drop (b.data_p + length h.key + 1) b.mem) (length (framed h.val)) ≡ framed h.val
  val_text_lem =
      rw
        (
          drop_add (b.data_p + length h.key) 1 b.mem,
          drop_add b.data_p (length h.key) b.mem,
          key_first,
          drop-append_length h.key (b':' ∷ (framed h.val ++ 10 ∷ rest)),
        )
        (strncpy0-append (framed h.val) (10 ∷ rest) (framed-Passes h v))

  field_lem :
      (r : Req)
      → parse_field r behind b.data_p
        ≡ take_header r (record b { data_p = b.data_p + length (line h) + 1 }) h.key h.val
  unfolding parse_field val_size
  field_lem r =
      let d = b.data_p in
      let k = length h.key in
      let n = length (line h) in
      let some_key = v.key_trimmed.some_bytes in
      let size = length-line h in
      let fits = v.val_fits in
      let key_fits = v.key_fits in
      let framed_size : length (framed h.val) ≡ length h.val + 2 =
        omega (arith, length-append h.val (13 ∷ [])) in
      let apart : (d + k == d) ≡ false = ground arith in
      let before : ltb (d + k) (d + n) ≡ true = ground arith in
      let key_size : min hdr_keysz (d + k - d) ≡ k = omega arith in
      let val_size : min hdr_valsz (d + n - (d + k) - 1) ≡ length (framed h.val) = omega arith in
      rw
        (
          colon,
          apart,
          at_colon,
          before,
          key_size,
          val_size,
          key_text_lem,
          val_text_lem,
          strstrip-IsTrimmed h.key v.key_trimmed,
          strstrip_framed h.val v.val_trimmed,
        )
        refl

  pub parse_line-IsField :
      (r : Req)
      → parse_line r b
        ≡ take_header r (record b { data_p = b.data_p + length (line h) + 1 }) h.key h.val
  unfolding parse_line eol
  parse_line-IsField r =
      let apart : (b.data_p == b.data_p + length (line h)) ≡ false =
        ground (arith, length-line h) in
      rw (proceed_line_lem, apart, field_lem r) refl

-- A header that is kept.
pub take_header-IsPlain :
    (h : Hdr) (r : Req) (b : Buf)
    → IsPlain h
    → take_header r b h.key h.val ≡ go (record r { hdrs = hdr_insert r.hdrs h }) b
unfolding take_header
take_header-IsPlain h r b v =
    rw (v.not_host, v.not_length, v.not_connection, hdr_new-IsField h v.field) refl
