-- ===== src/Response/Build/Found.antt =====
-- `resp_build` of response.c on files that are there and on files that are not.
use liso.Base.{ℕ, ◌≡◌, ◌%◌, ◌^◌, true, false, not, none, some, List, ◌++◌, arith, ◌==◌, codes}
use liso.CString.{Str}
use liso.Buffer.{mmbuf_new}
use liso.Request.{Req}
use liso.Response.{Resp}
use liso.Response.Build.{
  Files, Stat, map_file, open_file, resp_mmap, try_pages, with_slash, request_path, find_file,
  describe, resp_build,
}

-- The path names a regular file that can be opened and mapped.
pub record IsFile (fs : Files) (path : Str) (st : Stat) (bytes : List ℕ) : Type 0 where
  pub stats : fs.stat path ≡ some st
  pub regular : st.is_dir ≡ false
  pub opens : fs.can_open path ≡ true
  pub maps : fs.mmap path st.st_size ≡ some bytes

-- `resp_mmap` maps the whole file from its start.
pub resp_mmap-IsFile :
    (fs : Files) (r : Resp) (path : Str) (st : Stat) (bytes : List ℕ)
    → IsFile fs path st bytes
    → ((resp_mmap fs r path).1 ≡ some st)
      × (((resp_mmap fs r path).0).mmbuf
          ≡ some (record { sz = st.st_size; mem = bytes; data_p = 0; before = 0 }))
      × ((resp_mmap fs r path).0.status ≡ r.status)
unfolding resp_mmap open_file mmbuf_new map_file
resp_mmap-IsFile fs r path st bytes f = ground arith

-- If the requested path is a file, the response carries that file and its size whatever the default
-- pages are, the status stays as it was, and `resp_build` reports success unless the size is a
-- multiple of 2^32, when its low 32 bits are `false`.
pub resp_build-IsFile :
    (fs : Files) (r : Resp) (req : Req) (st : Stat) (bytes : List ℕ)
    → IsFile fs (request_path fs req) st bytes
    → let (r', ok) = resp_build fs r req in
      (r'.clen ≡ st.st_size)
      × (r'.mmbuf ≡ some (record { sz = st.st_size; mem = bytes; data_p = 0; before = 0 }))
      × (r'.status ≡ r.status)
      × (r'.alive ≡ req.alive)
      × (ok ≡ not (st.st_size % 2 ^ 32 == 0))
unfolding resp_build find_file describe resp_mmap open_file mmbuf_new map_file
resp_build-IsFile fs r req st bytes f = ground arith

-- Nothing that the program would serve is a file: the path itself, and the default pages below it.
pub record IsMissing (fs : Files) (path : Str) : Type 0 where
  pub itself : fs.stat path ≡ none
  pub html : fs.stat (with_slash path ++ codes "index.html") ≡ none
  pub htm : fs.stat (with_slash path ++ codes "index.htm") ≡ none

-- If neither the requested path nor a default page below it exists, the status is 404 and `resp_build`
-- reports failure.
pub resp_build-IsMissing :
    (fs : Files) (r : Resp) (req : Req)
    → IsMissing fs (request_path fs req)
    → ((resp_build fs r req).0.status ≡ 404) × ((resp_build fs r req).1 ≡ false)
unfolding resp_build find_file try_pages resp_mmap open_file
resp_build-IsMissing fs r req m = ground arith
