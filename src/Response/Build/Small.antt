-- ===== src/Response/Build/Small.antt =====
-- `resp_build` on the lengths of Response/Bounds.
use liso.Base.{
  ℕ, ◌<◌, ◌≤◌, ◌^◌, ◌≡◌, refl, ◌∙◌, Option, none, some, List, [], ◌∷◌, ◌++◌, arith, length,
  Option-cases, inl, inr,
}
use liso.CString.{Str}
use liso.Buffer.{Buf, mmbuf_new}
use liso.Header.{hdr_insert}
use liso.Request.{Req}
use liso.Request.Pack.{pack_headers}
use liso.Response.{Resp}
use liso.Response.Bounds.{length-file_fields}
use liso.Response.Build.{
  Files, Stat, map_file, open_file, resp_mmap, try_pages, with_slash, default_pages, find_file,
  describe, resp_build, request_path,
}

-- Sizes of files are not negative as an `off_t`, and `strftime` fills at most DATESZ bytes.
pub record StdFiles (fs : Files) : Type 0 where
  pub sizes : (path : Str) (st : Stat) → fs.stat path ≡ some st → st.st_size < 2 ^ 63
  pub dates : (t : ℕ) → length (fs.date t) < 64

-- The header fields, the phase and the length are as before.
abbrev Same : Resp → Resp → Type 0
Same r s = (s.hdrs ≡ r.hdrs) × (s.phase ≡ r.phase) × (s.clen ≡ r.clen)

-- A file that was found has a size that an `off_t` holds.
abbrev Sized : Option Stat → Type 0
Sized none = Unit
Sized (some st) = st.st_size < 2 ^ 63

abbrev Located : Option (Str × Stat) → Type 0
Located none = Unit
Located (some (path, st)) = st.st_size < 2 ^ 63

pack_headers-nil : pack_headers [] ≡ []
unfolding pack_headers
pack_headers-nil = refl

module _ (fs : Files) (std : StdFiles fs) where
  map_file_lem :
      (r : Resp) (b : Option Buf) (st : Stat)
      → st.st_size < 2 ^ 63
      → Same r (map_file r b st).0 × Sized (map_file r b st).1
  unfolding map_file
  map_file_lem r none st h = ((refl, refl, refl), tt)
  map_file_lem r (some b) st h = ((refl, refl, refl), h)

  open_file_lem :
      (r : Resp) (path : Str) (o : Option Stat)
      → Sized o
      → Same r (open_file fs r path o).0 × Sized (open_file fs r path o).1
  unfolding open_file
  open_file_lem r path none h = ((refl, refl, refl), tt)
  open_file_lem r path (some st) h =
      ground (arith, map_file_lem r (mmbuf_new (fs.mmap path st.st_size) st.st_size) st h)

  mmap_lem :
      (r : Resp) (path : Str) → Same r (resp_mmap fs r path).0 × Sized (resp_mmap fs r path).1
  unfolding resp_mmap
  mmap_lem r path = go (fs.stat path) refl
    where
      go :
          (o : Option Stat)
          → fs.stat path ≡ o
          → Same r (open_file fs r path (fs.stat path)).0
            × Sized (open_file fs r path (fs.stat path)).1
      go none e = rw e (open_file_lem r path none tt)
      go (some st) e = rw e (open_file_lem r path (some st) (std.sizes path st e))

  Same-trans : (r s t : Resp) → Same r s → Same s t → Same r t
  Same-trans r s t (a, b, c) (d, e, f) = (d ∙ a, e ∙ b, f ∙ c)

  pages_lem :
      (r : Resp) (dir : Str) (pages : List Str)
      → Same r (try_pages fs r dir pages).0 × Located (try_pages fs r dir pages).1
  unfolding try_pages
  pages_lem r dir [] = ((refl, refl, refl), tt)
  pages_lem r dir (page ∷ pages) =
      let o = resp_mmap fs r (dir ++ page) in
      let m = mmap_lem r (dir ++ page) in
      let later = pages_lem o.0 dir pages in
      elim (Option-cases o.1) [
        | inl e ↦
            rw (e, try_pages) (Same-trans r o.0 (try_pages fs o.0 dir pages).0 m.0 later.0, later.1)
        | inr (st, e) ↦ rw (e, try_pages) (m.0, rw e at m.1)
      ]

  find_lem :
      (r : Resp) (path : Str) → Same r (find_file fs r path).0 × Located (find_file fs r path).1
  unfolding find_file
  find_lem r path =
      let o = resp_mmap fs r path in
      let m = mmap_lem r path in
      let later = pages_lem o.0 (with_slash path) default_pages in
      elim (Option-cases o.1) [
        | inl e ↦
            rw (e, find_file)
              (
                Same-trans r o.0 (try_pages fs o.0 (with_slash path) default_pages).0 m.0 later.0,
                later.1,
              )
        | inr (st, e) ↦ rw (e, find_file) (m.0, rw e at m.1)
      ]

  -- From a response without header fields, whether a file is found or not.
  pub resp_build_small :
      (resp : Resp) (req : Req)
      → resp.hdrs ≡ []
      → resp.clen < 2 ^ 63
      → let out = (resp_build fs resp req).0 in
        (length (pack_headers out.hdrs) ≤ 118) × (out.clen < 2 ^ 63) × (out.phase ≡ resp.phase)
  unfolding resp_build describe hdr_insert
  resp_build_small resp req empty small =
      let r0 = record resp { alive = req.alive } in
      let path = request_path fs req in
      let found = find_file fs r0 path in
      let ((hdrs, phase, clen), sized) = find_lem r0 path in
      elim (Option-cases found.1) [
        | inl e ↦ ground (arith, e, pack_headers-nil)
        | inr ((p, st), e) ↦
            let z : st.st_size < 2 ^ 63 = rw e at sized in
            ground (
              arith,
              e,
              pack_headers-nil,
              length-file_fields p (fs.date st.st_mtime) (std.dates st.st_mtime),
            )
      ]
