-- ===== src/Tests/RoundTrip.antt =====
-- The round trip of a request, at concrete inputs.
use liso.Base.{◌≡◌, refl, [], ◌∷◌, ◌++◌, arith, codes, pos, negsuc}
use liso.CString.{cstr, is_space, strcaseeq, strchr, lower}
use liso.CString.Decimal.{print_int, print_nat, digits_fuel}
use liso.Buffer.{Buf}
use liso.Header.{Hdr}
use liso.Request.{Req, m_post, req_body}
use liso.Request.Pack.{req_method, pack_headers, pack_text, req_pack}
use liso.Request.Parse.{parsed, req_parse}
use liso.Request.RoundTrip.{IsPackable, req_parse-req_pack}
use liso.Tests.Data.{a_req, zeros, no_buf}

abbrev accept : Hdr
accept = record { key = codes "Accept"; val = codes "text/html" }

abbrev packed : Req
packed = record a_req {
  method = m_post;
  uri = codes "/a.html" ++ 0 ∷ [];
  host = codes "cmu.edu";
  clen = pos 12;
  hdrs = accept ∷ [];
}

abbrev new_req : Req
new_req = record a_req { uri = zeros 12; clen = negsuc 0; host = [] }

abbrev room : Buf
room = record no_buf { mem = zeros 120 }

packed-IsPackable : IsPackable packed 12
unfolding cstr is_space strcaseeq strchr lower
packed-IsPackable = record {
  method = refl;
  target = record {
    some_bytes = omega arith;
    solid = ground arith;
    text = ground arith;
    fits = omega arith;
    no_query = refl;
    not_http = refl;
    not_https = refl;
  };
  version = record {
    some_bytes = omega arith;
    solid = ground arith;
    text = ground arith;
    fits = omega arith;
  };
  host = record {
    trimmed = record { some_bytes = omega arith; first = refl; last = refl };
    text = (ground arith, ground arith);
    fits = omega arith;
  };
  clen = refl;
  small = omega arith;
  hdrs = (
    record {
      field = record {
        key_trimmed = record { some_bytes = omega arith; first = refl; last = refl };
        key_text = (ground arith, ground arith, ground arith);
        key_fits = omega arith;
        val_trimmed = record { some_bytes = omega arith; first = refl; last = refl };
        val_text = (ground arith, ground arith);
        val_fits = omega arith;
      };
      not_host = refl;
      not_length = refl;
      not_connection = refl;
    },
    tt,
  );
}

req_parse-req_pack_example :
    let (b, size) = req_pack packed room in
    (r : Req) × (req_parse new_req b ≡ (r, parsed size))
    × (r.method ≡ m_post)
    × (cstr r.uri ≡ codes "/a.html")
    × (r.version ≡ codes "HTTP/1.1")
    × (r.host ≡ codes "cmu.edu")
    × (r.clen ≡ pos 12)
    × (r.rsize ≡ pos 12)
    × (r.hdrs ≡ accept ∷ [])
    × (r.phase ≡ req_body)
unfolding cstr pack_text req_method pack_headers print_int print_nat digits_fuel
req_parse-req_pack_example =
    req_parse-req_pack packed new_req room 12 packed-IsPackable refl (omega arith) (omega arith)
