-- ===== src/Cgi/Env/Bounds.antt =====
-- The sizes of what `envp_new` of cgi.c makes.
use liso.Base.{
  ℕ, zero, suc, ◌+◌, ◌-◌, ◌≤◌, ◌≡◌, refl, Option, none, some, List, [], ◌∷◌, ◌++◌, arith, length,
  min, length-append, length-take, map, take, ap, pos, negsuc, ℤ,
}
use liso.CString.{Str}
use liso.Header.{Hdr, hdr_keysz}
use liso.Request.{Req, http, https, Scheme}
use liso.Cgi.Env.{
  envp_cnt, convert_char, convert_key, hdr_entries, server_entries, fixed_entries, params_entry,
  clen_entry, https_entry, envp_new,
}

length-hdr_entries :
    (hs : List Hdr) (cnt : ℕ) → length (hdr_entries hs cnt) ≡ min (length hs) (envp_cnt - cnt)
unfolding hdr_entries
length-hdr_entries [] cnt = omega arith
length-hdr_entries (h ∷ hs) cnt = ground (arith, length-hdr_entries hs (cnt + 1))

params-le : (r : Req) (o : Option ℕ) → length (params_entry r o) ≤ 1
unfolding params_entry
params-le r none = omega arith
params-le r (some k) = omega arith

clen-le : (z : ℤ) → length (clen_entry z) ≤ 1
unfolding clen_entry
clen-le (pos zero) = omega arith
clen-le (pos (suc n)) = omega arith
clen-le (negsuc n) = omega arith

https-le : (s : Scheme) → length (https_entry s) ≤ 1
unfolding https_entry
https-le http = omega arith
https-le https = omega arith

length-fixed_entries-le : (r : Req) → length (fixed_entries r) ≤ 15
unfolding fixed_entries server_entries
length-fixed_entries-le r = omega (
  arith,
  length-append (params_entry r r.params)
      (clen_entry r.clen ++ (server_entries r ++ https_entry r.scheme)),
  length-append (clen_entry r.clen) (server_entries r ++ https_entry r.scheme),
  length-append (server_entries r) (https_entry r.scheme),
  params-le r r.params,
  clen-le r.clen,
  https-le r.scheme,
)

-- The environment has the fixed entries and one for each header, up to 64. So it never has more
-- entries than the array of 64 pointers has places; but with 64 of them there is no place left for
-- the null pointer that `envp_new` writes behind them.
length-envp_new :
    (r : Req) → length (envp_new r) ≡ min envp_cnt (length (fixed_entries r) + length r.hdrs)
unfolding envp_new
length-envp_new r = omega (
  arith,
  length-append (fixed_entries r) (hdr_entries r.hdrs (length (fixed_entries r))),
  length-hdr_entries r.hdrs (length (fixed_entries r)),
  length-fixed_entries-le r,
)

length-map : (f : ℕ → ℕ) (s : Str) → length (map f s) ≡ length s
length-map f [] = refl
length-map f (c ∷ s) = ap suc (length-map f s)

-- A converted key is `HTTP_` and at most 512 characters; with its terminator it is one byte longer
-- than the array of 517 that `envp_new` gives it, when the header's key has 512 characters or more.
pub length-convert_key : (key : Str) → length (convert_key key) ≡ 5 + min hdr_keysz (length key)
unfolding convert_key
length-convert_key key =
    omega (arith, length-map convert_char (take hdr_keysz key), length-take hdr_keysz key)
