-- ===== src/Header.antt =====
-- header.h and header.c. The list of headers without its guard node; `none` is a null pointer.
use liso.Base.{ℕ, Option, none, some, List, [], ◌∷◌}
use liso.CString.{Str}
use liso.Utils.{strncpy0}

-- `HDR_KEYSZ` and `HDR_VALSZ`
abbrev pub hdr_keysz : ℕ
hdr_keysz = 512

abbrev pub hdr_valsz : ℕ
hdr_valsz = 4096

pub record Hdr : Type 0 where
  pub key : Str
  pub val : Str

unfoldable pub copy_field : Option Str → ℕ → Str
unfolding strncpy0
copy_field none n = []
copy_field (some s) n = strncpy0 s n

unfoldable pub hdr_new : Option Str → Option Str → Hdr
unfolding copy_field
hdr_new key val = record { key = copy_field key hdr_keysz; val = copy_field val hdr_valsz }

unfoldable pub hdr_insert : List Hdr → Hdr → List Hdr
hdr_insert hdrs hdr = hdr ∷ hdrs

unfoldable pub hdr_reset : List Hdr → List Hdr
hdr_reset hdrs = []
