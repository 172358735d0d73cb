-- ===== src/Request/Headers/Digits.antt =====
-- A printed number as the value of a header.
use liso.Base.{
  ℕ, ◌==◌, ◌∙◌, ◌^◌, ◌-◌, min, zero, suc, ◌+◌, ◌-◌, ◌*◌, ◌/◌, ◌%◌, ◌^◌, ◌≤◌, ◌<◌, ◌≡◌, refl, Bool,
  true, false, [], ◌∷◌, arith, length, get_or, length-append, Bool-cases, inl, inr, ltb, pos,
}
use liso.CString.{
  Str, is_digit, is_space, atoi, to_int, digits_value, leading_digits, signed_int, skip_spaces,
  long_int,
}
use liso.CString.Decimal.{digits_value-print_nat, digits_fuel, print_nat, print_int}
use liso.Utils.{isnum}
use liso.Request.Headers.{Passes, Passes-append, IsTrimmed}

digits-Passes : (f n : ℕ) → Passes is_digit (digits_fuel f n)
unfolding digits_fuel is_digit
digits-Passes zero n = tt
digits-Passes (suc f) n = elim (Bool-cases (ltb n 10)) [
  | inl e ↦ rw e (ground arith, tt)
  | inr e ↦ rw e (
      Passes-append is_digit (digits_fuel f (n / 10)) _ (digits-Passes f (n / 10))
        (ground arith, tt))
]

-- At least one digit, and at most as many as the power of ten has zeros.
digits_some : (f n : ℕ) → 0 < length (digits_fuel (suc f) n)
unfolding digits_fuel
digits_some f n = ground (arith, length-append (digits_fuel f (n / 10)) ((b'0' + n % 10) ∷ []))

abbrev ten_to : ℕ → ℕ
ten_to zero = 1
ten_to (suc k) = 10 * ten_to k

digits_le : (k f n : ℕ) → n < ten_to (suc k) → length (digits_fuel f n) ≤ suc k
unfolding digits_fuel
digits_le k zero n h = omega arith
digits_le zero (suc f) n h = ground arith
digits_le (suc k) (suc f) n h = elim (Bool-cases (ltb n 10)) [
  | inl e ↦ rw e (omega arith)
  | inr e ↦ rw e (
      omega (
        arith,
        length-append (digits_fuel f (n / 10)) ((b'0' + n % 10) ∷ []),
        digits_le k f (n / 10) (omega arith),
      ))
]

pub Passes_imp :
    (p q : ℕ → Bool) (s : Str) → ((c : ℕ) → p c ≡ true → q c ≡ true) → Passes p s → Passes q s
Passes_imp p q [] i t = tt
Passes_imp p q (c ∷ s) i (h, t) = (i c h, Passes_imp p q s i t)

Passes-get_or :
    (p : ℕ → Bool) (s : Str) (k : ℕ) → Passes p s → k < length s → p (get_or s k 0) ≡ true
Passes-get_or p [] k t h = elim h [ ]
Passes-get_or p (c ∷ s) zero (e, t) h = e
Passes-get_or p (c ∷ s) (suc k) (e, t) h = Passes-get_or p s k t (omega arith)

digit_solid : (c : ℕ) → is_digit c ≡ true → is_space c ≡ false
unfolding is_digit is_space
digit_solid c h = ground arith

isnum-Passes : (s : Str) → Passes is_digit s → isnum s ≡ true
unfolding isnum
isnum-Passes [] t = refl
isnum-Passes (c ∷ s) (h, t) = ground (arith, h, isnum-Passes s t)

-- A string of digits that is not empty.
pub IsTrimmed-digits : (s : Str) → 0 < length s → Passes is_digit s → IsTrimmed s
IsTrimmed-digits s n t = record {
  some_bytes = n;
  first = digit_solid (get_or s 0 0) (Passes-get_or is_digit s 0 t n);
  last =
      digit_solid (get_or s (length s - 1) 0)
        (Passes-get_or is_digit s (length s - 1) t (omega arith));
}

-- What `%zd` prints of an `int` that is not negative.
pub print_int-Passes : (n : ℕ) → Passes is_digit (print_int (pos n))
unfolding print_int print_nat
print_int-Passes n = digits-Passes (suc n) n

pub print_int-IsTrimmed : (n : ℕ) → IsTrimmed (print_int (pos n))
unfolding print_int print_nat
print_int-IsTrimmed n = IsTrimmed-digits _ (digits_some n n) (digits-Passes (suc n) n)

pub print_int_le : (n : ℕ) → n < 2 ^ 31 → length (print_int (pos n)) ≤ 10
unfolding print_int print_nat
print_int_le n h = digits_le 9 (suc n) n (omega arith)

pub isnum-print_int : (n : ℕ) → isnum (print_int (pos n)) ≡ true
isnum-print_int n = isnum-Passes _ (print_int-Passes n)

leading_digits-isnum : (s : Str) → isnum s ≡ true → leading_digits s ≡ s
unfolding leading_digits isnum
leading_digits-isnum [] e = refl
leading_digits-isnum (c ∷ s) e = ground (arith, e, leading_digits-isnum s)

first_digit : (c : ℕ) (s : Str) → isnum (c ∷ s) ≡ true → is_digit c ≡ true
unfolding isnum
first_digit c s e = ground (arith, e)

digit_only :
    (c : ℕ)
    → is_digit c ≡ true
    → (is_space c ≡ false) × ((c == b'-') ≡ false) × ((c == b'+') ≡ false)
unfolding is_digit is_space
digit_only c e = (ground (arith, e), ground (arith, e), ground (arith, e))

-- `atoi` of a string of digits is its value, as far as a `long` has it, read as an `int`.
atoi-isnum : (s : Str) → isnum s ≡ true → atoi s ≡ to_int (min (digits_value 0 s) (2 ^ 63 - 1))
unfolding atoi signed_int skip_spaces long_int
atoi-isnum [] e = refl
atoi-isnum (c ∷ s) e =
    let all = leading_digits-isnum (c ∷ s) e in
    let digit : is_digit c ≡ true = first_digit c s e in
    let (no_space, no_minus, no_plus) = digit_only c digit in
    rw (no_space, no_minus, no_plus, all) refl

-- What `%zd` prints of an `int` that is not negative, `atoi` reads back.
pub atoi-print_int : (n : ℕ) → n < 2 ^ 31 → atoi (print_int (pos n)) ≡ pos n
unfolding print_int to_int
atoi-print_int n h =
    atoi-isnum (print_int (pos n)) (isnum-print_int n) ∙ ground (arith, digits_value-print_nat n)
