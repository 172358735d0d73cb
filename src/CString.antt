-- ===== src/CString.antt =====
-- C strings and the functions of <string.h>, <strings.h>, <ctype.h> and <stdlib.h> that the program
-- calls. A string is the list of its bytes in front of the terminator.
pub mod Decimal
use liso.Base.{
  ℕ, zero, suc, ◌+◌, ◌-◌, ◌*◌, ◌%◌, ◌^◌, min, Bool, true, false, ◌&&◌, ◌||◌, Option, none, some,
  List, [], ◌∷◌, if◌then◌else◌, ltb, leb, ◌==◌, ℤ, pos, negsuc,
}
use mathlib.Core.Option

abbrev pub Str : Type 0
Str = List ℕ

-- The string that starts at a place in memory: the bytes up to the first NUL.
unfoldable pub cstr : List ℕ → Str
cstr [] = []
cstr (c ∷ cs) = let rest = cstr cs in if c == 0 then [] else c ∷ rest

-- `isspace` and `isdigit` in the C locale.
unfoldable pub is_space : ℕ → Bool
is_space c = c == 32 || leb 9 c && leb c 13

unfoldable pub is_digit : ℕ → Bool
is_digit c = leb b'0' c && leb c b'9'

-- `tolower` in the C locale.
unfoldable pub lower : ℕ → ℕ
lower c = if leb b'A' c && leb c b'Z' then c + 32 else c

-- `!strcasecmp(a, b)`
unfoldable pub strcaseeq : Str → Str → Bool
strcaseeq [] [] = true
strcaseeq (a ∷ as') (b ∷ bs) = lower a == lower b && strcaseeq as' bs
strcaseeq _ _ = false

-- `!strncasecmp(a, b, n)`
unfoldable pub strncaseeq : Str → Str → ℕ → Bool
strncaseeq a b zero = true
strncaseeq [] [] (suc n) = true
strncaseeq (x ∷ a) (y ∷ b) (suc n) = lower x == lower y && strncaseeq a b n
strncaseeq _ _ (suc n) = false

-- `!strncmp(a, b, n)`
unfoldable pub strneq : Str → Str → ℕ → Bool
strneq a b zero = true
strneq [] [] (suc n) = true
strneq (x ∷ a) (y ∷ b) (suc n) = x == y && strneq a b n
strneq _ _ (suc n) = false

-- `strchr(s, c)` as an index, for a `c` other than NUL.
unfoldable pub strchr : Str → ℕ → Option ℕ
strchr [] c = none
strchr (x ∷ s) c = let rest = Option.map suc (strchr s c) in if x == c then some 0 else rest

-- The value of a string of digits, most significant first.
unfoldable pub digits_value : ℕ → Str → ℕ
digits_value acc [] = acc
digits_value acc (c ∷ cs) = digits_value (acc * 10 + (c - b'0')) cs

-- A 32-bit pattern read as an `int`.
unfoldable pub to_int : ℕ → ℤ
to_int n = if ltb (n % 2 ^ 32) (2 ^ 31) then pos (n % 2 ^ 32) else negsuc (2 ^ 32 - 1 - n % 2 ^ 32)

unfoldable pub skip_spaces : Str → Str
unfolding is_space
skip_spaces [] = []
skip_spaces (c ∷ s) = let rest = skip_spaces s in if is_space c then rest else c ∷ s

unfoldable pub leading_digits : Str → Str
unfolding is_digit
leading_digits [] = []
leading_digits (c ∷ s) = let rest = leading_digits s in if is_digit c then c ∷ rest else []

-- The `long` of the digits at the start of a string, which saturates, and its low 32 bits as an `int`;
-- and the same behind a minus sign.
unfoldable pub long_int : Str → ℤ
unfolding to_int digits_value leading_digits
long_int s = to_int (min (digits_value 0 (leading_digits s)) (2 ^ 63 - 1))

unfoldable pub negated_int : Str → ℤ
unfolding to_int digits_value leading_digits
negated_int s = to_int (2 ^ 64 - min (digits_value 0 (leading_digits s)) (2 ^ 63))

unfoldable pub signed_int : Str → ℤ
unfolding long_int negated_int
signed_int [] = pos 0
signed_int (c ∷ s) =
    if c == b'-' then negated_int s else if c == b'+' then long_int s else long_int (c ∷ s)

-- `atoi` as glibc has it, `(int) strtol(s, NULL, 10)`.
unfoldable pub atoi : Str → ℤ
unfolding signed_int skip_spaces
atoi s = signed_int (skip_spaces s)
