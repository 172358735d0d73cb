-- ===== src/Buffer.antt =====
-- buffer.h and buffer.c. A size is the 64-bit pattern of its `ssize_t`, so that -1 is 2^64 - 1;
-- `data_p` is an offset into the allocation, and what `malloc` and `mmap` give is an argument.
pub mod Laws
use liso.Base.{
  get_or, ℕ, zero, suc, ◌+◌, ◌-◌, ◌*◌, ◌%◌, ◌^◌, Bool, true, false, ◌&&◌, ◌||◌, Option, none, some,
  List, [], ◌∷◌, ◌++◌, if◌then◌else◌, ltb, leb, ◌==◌, length, get_or, take, drop, set,
}

-- `BUFSZ`
abbrev pub bufsz : ℕ
bufsz = 8192

pub record Buf : Type 0 where
  pub sz : ℕ
  pub mem : List ℕ
  pub data_p : ℕ
  pub before : ℕ

-- `memcpy`: the bytes go to `i` and on; a byte past the allocation is not written.
unfoldable pub write_at : List ℕ → ℕ → List ℕ → List ℕ
write_at [] i xs = []
write_at (m ∷ ms) zero [] = m ∷ ms
write_at (m ∷ ms) zero (x ∷ xs) = x ∷ write_at ms zero xs
write_at (m ∷ ms) (suc i) xs = m ∷ write_at ms i xs

-- The bytes of [i, i + n).
abbrev pub slice : List ℕ → ℕ → ℕ → List ℕ
slice m i n = take n (drop i m)

-- What an allocation holds before it is written, and the byte in front of it.
pub record Alloc : Type 0 where
  pub bytes : List ℕ
  pub front : ℕ

unfoldable pub buf_new : Alloc → Buf
buf_new a = record { sz = 0; mem = set a.bytes 0 0; data_p = 0; before = a.front }

-- The byte at an offset, and the byte before an offset.
abbrev pub peek : Buf → ℕ → ℕ
peek b i = get_or b.mem i 0

abbrev pub peek_prev : Buf → ℕ → ℕ
peek_prev b zero = b.before
peek_prev b (suc i) = get_or b.mem i 0

unfoldable pub buf_end : Buf → ℕ
buf_end b = b.sz

unfoldable pub buf_rsize : Buf → ℕ
buf_rsize b = (b.sz + 2 ^ 64 - b.data_p) % 2 ^ 64

unfoldable pub buf_reset : Buf → Buf
buf_reset b = record b { data_p = 0; sz = 0 }

-- `none` is `MAP_FAILED`.
unfoldable pub mmbuf_new : Option (List ℕ) → ℕ → Option Buf
mmbuf_new none sz = none
mmbuf_new (some bytes) sz = some (record { sz = sz; mem = bytes; data_p = 0; before = 0 })
