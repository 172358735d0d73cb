-- ===== src/Request/RoundTrip.antt =====
-- `req_parse` on what `req_pack` writes.
use liso.Base.{
  ℕ, ◌+◌, ◌^◌, ◌<◌, ◌≡◌, refl, ap, ◌∙◌, sym, true, false, [], ◌∷◌, ◌++◌, arith, length, drop,
  length-append, pos,
}
use mathlib.Core.List.{append_assoc}
use liso.CString.{Str, cstr}
use liso.Buffer.{Buf, write_at}
use liso.Buffer.Laws.{write_at_front}
use liso.Request.{Req, m_other, is_method, req_start, req_header, req_body, in_phase}
use liso.Request.Pack.{req_method, pack_text, req_pack}
use liso.Request.Parse.{parsed, after_round, req_parse}
use liso.Request.Headers.RoundTrip.{ArePlain, insert_all}
use liso.Request.Headers.Packed.{IsHost, header_text, with_header, parse_header-lem}
use liso.Request.StartLine.{behind, IsTarget, IsVersion, with_uri, cstr-write_str}
use liso.Request.StartLine.Target.{target_text, parse_start_lem}

-- A request whose text carries all of it, with a body of `n` bytes.
pub record IsPackable (q : Req) (n : ℕ) : Type 0 where
  pub method : is_method q.method m_other ≡ false
  pub target : IsTarget (cstr q.uri)
  pub version : IsVersion q.version
  pub host : IsHost q.host
  pub clen : q.clen ≡ pos n
  pub small : n < 2 ^ 31
  pub hdrs : ArePlain q.hdrs

-- The text is the request line and the header.
pack-lines :
    (q : Req) (n : ℕ) (rest : Str)
    → q.clen ≡ pos n
    → pack_text q ++ rest
      ≡ req_method q.method
        ++ target_text (cstr q.uri) q.version (header_text q.host n q.hdrs ++ rest)
unfolding pack_text
pack-lines q n rest e = rw e (simp append_assoc)

length-pack_text :
    (q : Req) (n : ℕ)
    → q.clen ≡ pos n
    → length (pack_text q)
      ≡ length (req_method q.method)
        + length (cstr q.uri)
        + length q.version
        + 4
        + length (header_text q.host n q.hdrs)
length-pack_text q n e =
    let text = header_text q.host n q.hdrs ++ [] in
    omega (
      arith,
      ap length (pack-lines q n [] e),
      length-append (pack_text q) [],
      length-append (req_method q.method) (target_text (cstr q.uri) q.version text),
      length-append (cstr q.uri) (32 ∷ (q.version ++ 13 ∷ 10 ∷ text)),
      length-append q.version (13 ∷ 10 ∷ text),
      length-append (header_text q.host n q.hdrs) [],
    )

abbrev front_text : Str → Str → Str → Str
front_text name uri version = name ++ 32 ∷ (uri ++ 32 ∷ (version ++ 13 ∷ 10 ∷ []))

front-append :
    (name uri version t : Str)
    → name ++ target_text uri version t ≡ front_text name uri version ++ t
front-append name uri version t = simp append_assoc

length-front :
    (name uri version : Str)
    → length (front_text name uri version) ≡ length name + length uri + length version + 4
length-front name uri version = omega (
  arith,
  length-append name (32 ∷ (uri ++ 32 ∷ (version ++ 13 ∷ 10 ∷ []))),
  length-append uri (32 ∷ (version ++ 13 ∷ 10 ∷ [])),
  length-append version (13 ∷ 10 ∷ []),
)

-- The request line and the header in a buffer, parsed.
parse-text :
    (q r : Req) (b : Buf) (n : ℕ) (rest : Str)
    → IsPackable q n
    → r.phase ≡ req_start
    → length (cstr q.uri) < length r.uri
    → b.data_p ≡ 0
    → b.mem ≡ pack_text q ++ rest
    → b.sz ≡ length (pack_text q)
    → req_parse r b ≡ (
      with_header
          (record (with_uri r (cstr q.uri)) {
            method = q.method;
            version = q.version;
            phase = req_header;
          })
          q.host
          n
          q.hdrs,
      parsed (length (pack_text q)),
    )
unfolding req_parse after_round
parse-text q r b n rest v phase room start text size =
    let header = header_text q.host n q.hdrs in
    let name = req_method q.method in
    let uri = cstr q.uri in
    let long = length-pack_text q n v.clen in
    let text0 : drop b.data_p b.mem ≡ name ++ target_text uri q.version (header ++ rest) =
      rw start (text ∙ pack-lines q n rest v.clen) in
    let front = front_text name uri q.version in
    let front_size : length front ≡ length name + length uri + length q.version + 4 =
      length-front name uri q.version in
    let place : b.data_p + length front
        ≡ b.data_p + length name + length uri + length q.version + 4 =
      omega arith in
    let text1 : drop (b.data_p + length name + length uri + length q.version + 4) b.mem
        ≡ header ++ rest =
      ap (λ k. drop k b.mem) (sym place)
      ∙ behind b front (header ++ rest)
          (text0 ∙ front-append name uri q.version (header ++ rest)) in
    let at : in_phase r.phase req_start ≡ true = rw phase refl in
    let end : b.data_p + length name + length uri + length q.version + 4 + length header
        ≡ length (pack_text q) =
      omega arith in
    let line =
      parse_start_lem uri q.version v.target v.version r b q.method (header ++ rest) v.method room
        text0 (omega arith) in
    let lines =
      parse_header-lem q.host n q.hdrs v.host v.small v.hdrs _ _ rest refl text1 (omega arith) in
    rw (at, line)
      (lines
        ∙ ap
            (λ k. (
              with_header
                  (record (with_uri r uri) {
                    method = q.method;
                    version = q.version;
                    phase = req_header;
                  })
                  q.host n q.hdrs,
              parsed k,
            ))
            end)

-- A request that `req_pack` writes into a buffer with room for it, `req_parse` reads back into a new request: it
-- takes the whole text, and the request has the method, the uri, the version, the host and the body length of
-- the packed one, and its headers in the opposite order in front of those that it had, and awaits the body.
-- The packed request has a method that the parser knows; a uri, a version and a host that fit and stand for themselves in a line;
-- a body length that is an `int`; and headers whose keys have no meaning of their own.
pub req_parse-req_pack :
    (q r : Req) (b : Buf) (n : ℕ)
    → IsPackable q n
    → r.phase ≡ req_start
    → length (cstr q.uri) < length r.uri
    → length (pack_text q) < length b.mem
    → let (b', size) = req_pack q b in
      (r' : Req) × (req_parse r b' ≡ (r', parsed size))
      × (r'.method ≡ q.method)
      × (cstr r'.uri ≡ cstr q.uri)
      × (r'.version ≡ q.version)
      × (r'.host ≡ q.host)
      × (r'.clen ≡ q.clen)
      × (r'.rsize ≡ q.clen)
      × (r'.hdrs ≡ insert_all q.hdrs r.hdrs)
      × (r'.phase ≡ req_body)
unfolding req_pack
req_parse-req_pack q r b n v phase room space =
    let (u, e) = write_at_front b.mem (pack_text q) space in
    let b' = record b {
      mem = write_at b.mem 0 (pack_text q ++ 0 ∷ []);
      sz = length (pack_text q);
      data_p = 0;
    } in
    (
      with_header
          (record (with_uri r (cstr q.uri)) {
            method = q.method;
            version = q.version;
            phase = req_header;
          })
          q.host n q.hdrs,
      parse-text q r b' n (0 ∷ u) v phase room refl e refl,
      refl,
      cstr-write_str r.uri (cstr q.uri) v.target.text room,
      refl,
      refl,
      sym v.clen,
      sym v.clen,
      refl,
      refl,
    )
