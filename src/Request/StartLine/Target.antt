-- ===== src/Request/StartLine/Target.antt =====
-- From the method to the end of the request line.
use liso.Base.{
  ◌+◌, ◌-◌, ◌≤◌, ◌<◌, ◌≡◌, refl, ◌∙◌, sym, true, false, [], ◌∷◌, ◌++◌, ◌==◌, arith, length, drop,
  min,
}
use liso.CString.{Str, is_space}
use liso.Utils.{strncpy0}
use liso.Buffer.{Buf, peek}
use liso.Request.{Req, Method, m_get, m_head, m_post, m_other, is_method, req_header}
use liso.Request.Pack.{req_method}
use liso.Request.Scan.{issp}
use liso.Request.Scan.Bounds.{get_or-drop}
use liso.Request.Parse.{go, parse_target, parse_start}
use liso.Request.Headers.{Passes, get_or-append}
use liso.Request.Headers.Line.{not_nul, strncpy0-append}
use liso.Request.Headers.RoundTrip.{eol_empty}
use liso.Request.StartLine.{
  is_solid, inline_lem, word_first, behind, IsTarget, IsVersion, with_uri, read_uri_lem,
  read_version_lem, read_method_lem, parse_method_lem,
}

space_issp : issp 32 ≡ true
unfolding issp
space_issp = refl

return_issp : issp 13 ≡ true
unfolding issp
return_issp = refl

newline_issp : issp 10 ≡ false
unfolding issp
newline_issp = refl

space_ends : is_solid 32 ≡ false
unfolding is_space
space_ends = refl

return_ends : is_solid 13 ≡ false
unfolding is_space
return_ends = refl

newline_ends : is_solid 10 ≡ false
unfolding is_space
newline_ends = refl

-- The name of a method is a word of at most seven bytes.
record IsName (name : Str) : Type 0 where
  some_bytes : 0 < length name
  solid : Passes is_solid name
  text : Passes not_nul name
  fits : length name ≤ 8

method-IsName : (m : Method) → IsName (req_method m)
unfolding req_method is_space
method-IsName m_get = record {
  some_bytes = omega arith;
  solid = ground arith;
  text = ground arith;
  fits = omega arith;
}
method-IsName m_head = record {
  some_bytes = omega arith;
  solid = ground arith;
  text = ground arith;
  fits = omega arith;
}
method-IsName m_post = record {
  some_bytes = omega arith;
  solid = ground arith;
  text = ground arith;
  fits = omega arith;
}
method-IsName m_other = record {
  some_bytes = omega arith;
  solid = ground arith;
  text = ground arith;
  fits = omega arith;
}

-- The request line behind the method.
abbrev pub target_text : Str → Str → Str → Str
target_text uri version rest = 32 ∷ (uri ++ 32 ∷ (version ++ 13 ∷ 10 ∷ rest))

module _ (uri version : Str) (u : IsTarget uri) (v : IsVersion version) where
  parse_target_lem :
      (r : Req) (b : Buf) (rest : Str)
      → length uri < length r.uri
      → drop b.data_p b.mem ≡ target_text uri version rest
      → b.data_p + length uri + length version + 4 ≤ b.sz
      → parse_target r b
        ≡ go
            (record (with_uri r uri) { version = version; phase = req_header })
            (record b { data_p = b.data_p + length uri + length version + 4 })
  unfolding parse_target
  parse_target_lem r b rest room text inside =
      let b0 = record b { data_p = b.data_p + 1 } in
      let b1 = record b { data_p = b.data_p + 1 + length uri } in
      let b1' = record b { data_p = b.data_p + 1 + length uri + 1 } in
      let b2 = record b { data_p = b.data_p + 1 + length uri + 1 + length version } in
      let after_uri = version ++ 13 ∷ 10 ∷ rest in
      let text0 : drop b0.data_p b.mem ≡ uri ++ 32 ∷ after_uri =
        behind b (32 ∷ []) (uri ++ 32 ∷ after_uri) text in
      let text1 : drop b1.data_p b.mem ≡ 32 ∷ after_uri = behind b0 uri (32 ∷ after_uri) text0 in
      let text1' : drop b1'.data_p b.mem ≡ after_uri = behind b1 (32 ∷ []) after_uri text1 in
      let text2 : drop b2.data_p b.mem ≡ 13 ∷ 10 ∷ rest =
        behind b1' version (13 ∷ 10 ∷ rest) text1' in
      let i1 =
        inline_lem b (32 ∷ []) uri 32 after_uri text (space_issp, tt)
          (word_first uri (32 ∷ after_uri) u.some_bytes u.solid) u.solid space_ends (omega arith) in
      let i2 =
        inline_lem b1 (32 ∷ []) version 13 (10 ∷ rest) text1 (space_issp, tt)
          (word_first version (13 ∷ 10 ∷ rest) v.some_bytes v.solid) v.solid return_ends
          (omega arith) in
      let i3 =
        inline_lem b2 (13 ∷ []) [] 10 rest text2 (return_issp, tt) newline_issp tt newline_ends
          (omega arith) in
      let same : b2.data_p + 1 + 0 ≡ b2.data_p + 1 = omega arith in
      let end : b2.data_p + 1 + 1 ≡ b.data_p + length uri + length version + 4 = omega arith in
      let r1 = read_uri_lem r b1 b0.data_p uri (32 ∷ after_uri) u room text0 (omega arith) in
      let r2 =
        read_version_lem (with_uri r uri) b2 b1'.data_p version (13 ∷ 10 ∷ rest) v text1'
          (omega arith) in
      rw (i1, r1, i2, r2, i3, same, eol_empty b2 rest text2 (omega arith), end) refl

  -- `parse_start` on the request line of a method that the parser knows.
  pub parse_start_lem :
      (r : Req) (b : Buf) (m : Method) (rest : Str)
      → is_method m m_other ≡ false
      → length uri < length r.uri
      → drop b.data_p b.mem ≡ req_method m ++ target_text uri version rest
      → b.data_p + length (req_method m) + length uri + length version + 4 ≤ b.sz
      → parse_start r b
        ≡ go
            (record (with_uri r uri) { method = m; version = version; phase = req_header })
            (record b {
              data_p = b.data_p + length (req_method m) + length uri + length version + 4;
            })
  unfolding parse_start
  parse_start_lem r b m rest known room text inside =
      let name = req_method m in
      let n = method-IsName m in
      let some_bytes = n.some_bytes in
      let fits = n.fits in
      let others = target_text uri version rest in
      let b1 = record b { data_p = b.data_p + length name } in
      let start : b.data_p + 0 ≡ b.data_p = omega arith in
      let i =
        inline_lem b [] name 32 (uri ++ 32 ∷ (version ++ 13 ∷ 10 ∷ rest)) text tt
          (word_first name others n.some_bytes n.solid) n.solid space_ends (omega arith) in
      let size : b.data_p + length name - b.data_p ≡ length name = omega arith in
      let cut : min 8 (length name) ≡ length name = omega arith in
      let word : strncpy0 (drop b.data_p b.mem) (length name) ≡ name =
        rw text (strncpy0-append name others n.text) in
      let named : (length name == 0) ≡ false = ground arith in
      let at : peek b (b.data_p + length name) ≡ 32 =
        sym (get_or-drop b.mem b.data_p (length name)) ∙ rw text (get_or-append name 32 _) in
      rw
        (
          i,
          start,
          size,
          cut,
          word,
          named,
          read_method_lem m b1 b.data_p known at,
          parse_method_lem r b1 m known,
        )
        (parse_target_lem (record r { method = m }) b1 rest room (behind b name others text) inside)
