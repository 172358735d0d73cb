-- ===== src/Request/StartLine.antt =====
-- The request line that `req_pack` writes, before `parse_start` of request.c.
pub mod Target
use liso.Base.{
  ℕ, zero, suc, ◌+◌, ◌-◌, ◌≤◌, ◌<◌, ◌≡◌, refl, ap, ◌∙◌, sym, Bool, true, false, not, none, List, [],
  ◌∷◌, ◌++◌, ◌==◌, arith, length, take, drop, get_or, set, length-append, drop-append_length, ltb,
  codes, min, Bool-cases, inl, inr, if◌then◌else◌,
}
use mathlib.Core.List.{append_assoc}
use liso.CString.{Str, cstr, is_space, strcaseeq, strncaseeq, strchr, lower}
use liso.Utils.{strncpy0, strstartswith}
use liso.Buffer.{Buf, buf_end, slice, peek, peek_prev, write_at}
use liso.Buffer.Laws.{write_at_front}
use liso.Request.{
  Req, Method, m_get, m_head, m_post, m_other, is_method, req_header, req_dynamic, req_urisz,
  req_versz,
}
use liso.Request.Pack.{req_method}
use liso.Request.Scan.{run_length, issp, skip, proceed_inline, eol}
use liso.Request.Scan.Bounds.{get_or-drop}
use liso.Request.Parse.{
  Step, go, read_method, write_str, host_start, split_host, split_params, read_uri, read_version,
  parse_target, parse_method, parse_start,
}
use liso.Request.Headers.{Passes, run_length-take, cstr-Passes, drop_add}
use liso.Request.Headers.Line.{not_nul, run_length_first, strncpy0-append}

abbrev pub is_solid : ℕ → Bool
is_solid c = not (is_space c)

run_length_stop :
    (test : ℕ → Bool) (s t : Str) (n : ℕ)
    → Passes test s
    → test (get_or t 0 0) ≡ false
    → length s < n
    → run_length test (take n (s ++ t)) ≡ length s
unfolding run_length
run_length_stop test s t zero p f h = elim h [ ]
run_length_stop test [] t (suc n) p f h = run_length_first test t (suc n) f
run_length_stop test (x ∷ s) t (suc n) (e, p) f h =
    rw e (ap suc (run_length_stop test s t n p f (omega arith)))

pub behind :
    (b : Buf) (s t : Str) → drop b.data_p b.mem ≡ s ++ t → drop (b.data_p + length s) b.mem ≡ t
behind b s t text = rw (drop_add b.data_p (length s) b.mem, text) (drop-append_length s t)

-- Spaces, a word and a byte that ends it.
pub inline_lem :
    (b : Buf) (pre word : Str) (c : ℕ) (rest : Str)
    → drop b.data_p b.mem ≡ pre ++ (word ++ c ∷ rest)
    → Passes issp pre
    → issp (get_or (word ++ c ∷ rest) 0 0) ≡ false
    → Passes is_solid word
    → is_solid c ≡ false
    → b.data_p + length pre + length word < b.sz
    → proceed_inline b
      ≡ (b.data_p + length pre, record b { data_p = b.data_p + length pre + length word })
unfolding proceed_inline skip buf_end
inline_lem b pre word c rest text blank first solid stop inside =
    let skipped : run_length issp (slice b.mem b.data_p (b.sz - b.data_p)) ≡ length pre =
      rw text
        (run_length_stop issp pre (word ++ c ∷ rest) (b.sz - b.data_p) blank first (omega arith)) in
    let read : run_length is_solid
          (slice b.mem (b.data_p + length pre) (b.sz - (b.data_p + length pre)))
        ≡ length word =
      rw (behind b pre (word ++ c ∷ rest) text) (
        run_length-take is_solid word c rest (b.sz - (b.data_p + length pre)) solid stop
          (omega arith)) in
    rw (skipped, read) refl

-- A word that starts with a byte that is no space.
first_issp : (c : ℕ) (s t : Str) → is_solid c ≡ true → issp c ≡ false
unfolding issp is_space
first_issp c s t h = ground arith

pub word_first : (s t : Str) → 0 < length s → Passes is_solid s → issp (get_or (s ++ t) 0 0) ≡ false
word_first [] t n p = elim n [ ]
word_first (c ∷ s) t n (h, p) = first_issp c s t h

cstr-append : (s u : Str) → Passes not_nul s → cstr (s ++ 0 ∷ u) ≡ s
unfolding cstr
cstr-append [] u p = refl
cstr-append (c ∷ s) u (h, p) = ground (arith, cstr-append s u p)

-- A string that was written into an array that has room for it and its terminator.
pub cstr-write_str :
    (arr s : Str) → Passes not_nul s → length s < length arr → cstr (write_str arr s) ≡ s
unfolding write_str
cstr-write_str arr s p h = let (u, e) = write_at_front arr s h in rw e (cstr-append s u p)

-- A uri that stays as it is: without spaces and a query, and not one of the two that the parser takes a host from.
pub record IsTarget (uri : Str) : Type 0 where
  pub some_bytes : 0 < length uri
  pub solid : Passes is_solid uri
  pub text : Passes not_nul uri
  pub fits : length uri ≤ req_urisz
  pub no_query : strchr uri b'?' ≡ none
  pub not_http : strcaseeq uri (codes "http://") ≡ false
  pub not_https : strcaseeq uri (codes "https://") ≡ false

pub record IsVersion (version : Str) : Type 0 where
  pub some_bytes : 0 < length version
  pub solid : Passes is_solid version
  pub text : Passes not_nul version
  pub fits : length version ≤ req_versz

-- The request with a uri.
abbrev pub with_uri : Req → Str → Req
with_uri r uri = record r {
  uri = write_str r.uri uri;
  params = none;
  type_ = if strstartswith uri (codes "/cgi/") then req_dynamic else r.type_;
}

pub read_uri_lem :
    (r : Req) (b : Buf) (p : ℕ) (uri rest : Str)
    → IsTarget uri
    → length uri < length r.uri
    → drop p b.mem ≡ uri ++ rest
    → b.data_p - p ≡ length uri
    → read_uri r b p ≡ with_uri r uri
unfolding read_uri split_host split_params host_start
read_uri_lem r b p uri rest v room text size =
    let f = v.fits in
    let cut : min req_urisz (length uri) ≡ length uri = omega arith in
    elim (Bool-cases (strstartswith uri (codes "/cgi/"))) [
      | inl e ↦
          rw
            (
              size,
              cut,
              text,
              strncpy0-append uri rest v.text,
              cstr-write_str r.uri uri v.text room,
              v.not_http,
              v.not_https,
              cstr-write_str r.uri uri v.text room,
              e,
              cstr-write_str r.uri uri v.text room,
              v.no_query,
            )
            refl
      | inr e ↦
          rw
            (
              size,
              cut,
              text,
              strncpy0-append uri rest v.text,
              cstr-write_str r.uri uri v.text room,
              v.not_http,
              v.not_https,
              cstr-write_str r.uri uri v.text room,
              e,
              cstr-write_str r.uri uri v.text room,
              v.no_query,
            )
            refl
    ]

pub read_version_lem :
    (r : Req) (b : Buf) (p : ℕ) (version rest : Str)
    → IsVersion version
    → drop p b.mem ≡ version ++ rest
    → b.data_p - p ≡ length version
    → read_version r b p ≡ record r { version = version }
unfolding read_version
read_version_lem r b p version rest v text size =
    let f = v.fits in
    let cut : min req_versz (length version) ≡ length version = omega arith in
    rw (size, cut, text, strncpy0-append version rest v.text) refl

pub read_method_lem :
    (m : Method) (b : Buf) (p : ℕ)
    → is_method m m_other ≡ false
    → peek b (p + length (req_method m)) ≡ 32
    → read_method (req_method m) b p ≡ m
unfolding read_method req_method strncaseeq lower issp
read_method_lem m_get b p h s = rw s refl
read_method_lem m_head b p h s = rw s refl
read_method_lem m_post b p h s = rw s refl
read_method_lem m_other b p h s = cc

pub parse_method_lem :
    (r : Req) (b : Buf) (m : Method)
    → is_method m m_other ≡ false
    → parse_method r b m ≡ parse_target (record r { method = m }) b
unfolding parse_method
parse_method_lem r b m_get h = refl
parse_method_lem r b m_head h = refl
parse_method_lem r b m_post h = refl
parse_method_lem r b m_other h = cc
