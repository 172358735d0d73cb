-- ===== src/Utils.antt =====
-- utils.c, the string utilities.
pub mod Affix
pub mod Strip
use liso.Base.{
  ℕ, zero, suc, ◌+◌, ◌-◌, ◌*◌, Bool, true, false, ◌&&◌, ◌||◌, Option, none, some, List, [], ◌∷◌,
  ◌++◌, if◌then◌else◌, ltb, leb, ◌==◌, length, get_or, take, drop,
}
use liso.CString.{Str, cstr, is_space, is_digit, strncaseeq, strneq}

-- `for (p = str; isspace(*p); p++);` as the index where `p` stops.
unfoldable pub lead : Str → ℕ
unfolding is_space
lead [] = 0
lead (c ∷ s) = let more = suc (lead s) in if is_space c then more else 0

-- `for (q = ...; isspace(*q) && q > p; q--);` as the index where `q` stops.
unfoldable pub back : Str → ℕ → ℕ → ℕ
unfolding is_space
back s p zero = zero
back s p (suc q) =
    let more = back s p q in if is_space (get_or s (suc q) 0) && ltb p (suc q) then more else suc q

unfoldable pub strstrip : Str → Str
unfolding lead back
strstrip s =
    let p = lead s in
    let q = back s p (length s - 1) in if p == length s then [] else take (q + 1 - p) (drop p s)

unfoldable pub isnum : Str → Bool
unfolding is_digit
isnum [] = true
isnum (c ∷ s) = is_digit c && isnum s

-- The string at `d` after `strncpy0(d, s, n)`, with `s` the memory that the source points to.
unfoldable pub strncpy0 : List ℕ → ℕ → Str
unfolding cstr
strncpy0 s n = cstr (take n s)

-- The string at `d` after `strcpy0(d, s)`.
unfoldable pub strcpy0 : List ℕ → Str
unfolding cstr
strcpy0 s = cstr s

-- `none` is a null pointer.
unfoldable pub caseendswith : Option Str → Option Str → Bool
unfolding strncaseeq
caseendswith none t = false
caseendswith (some s) none = false
caseendswith (some s) (some t) =
    if ltb (length s) (length t)
    then false
    else strncaseeq (drop (length s - length t) s) t (length t)

unfoldable pub strstartswith : Str → Str → Bool
unfolding strneq
strstartswith s t = strneq s t (length t)
