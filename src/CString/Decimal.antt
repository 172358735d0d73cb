-- ===== src/CString/Decimal.antt =====
-- `printf("%zd")`, and the value of what it prints.
use liso.Base.{
  ℕ, zero, suc, ◌+◌, ◌-◌, ◌*◌, ◌/◌, ◌%◌, ◌<◌, ◌≡◌, refl, arith, [], ◌∷◌, ◌++◌, if◌then◌else◌, ltb,
  ℤ, pos, negsuc,
}
use liso.CString.{Str, digits_value}

unfoldable pub digits_fuel : ℕ → ℕ → Str
digits_fuel zero n = []
digits_fuel (suc f) n =
    let more = digits_fuel f (n / 10) ++ (b'0' + n % 10) ∷ [] in
    if ltb n 10 then (b'0' + n) ∷ [] else more

unfoldable pub print_nat : ℕ → Str
unfolding digits_fuel
print_nat n = digits_fuel (suc n) n

-- `%zd`
unfoldable pub print_int : ℤ → Str
unfolding print_nat
print_int (pos n) = print_nat n
print_int (negsuc n) = b'-' ∷ print_nat (suc n)

digits_value-append :
    (acc : ℕ) (s : Str) (c : ℕ)
    → digits_value acc (s ++ c ∷ []) ≡ digits_value (digits_value acc s) (c ∷ [])
unfolding digits_value
digits_value-append acc [] c = refl
digits_value-append acc (x ∷ s) c = digits_value-append (acc * 10 + (x - b'0')) s c

digits_value-fuel : (f n : ℕ) → n < f → digits_value 0 (digits_fuel f n) ≡ n
unfolding digits_value digits_fuel
digits_value-fuel zero n h = elim h [ ]
digits_value-fuel (suc f) n h = ground (
  arith,
  digits_value-append 0 (digits_fuel f (n / 10)) (b'0' + n % 10),
  digits_value-fuel f (n / 10),
)

pub digits_value-print_nat : (n : ℕ) → digits_value 0 (print_nat n) ≡ n
unfolding print_nat
digits_value-print_nat n = digits_value-fuel (suc n) n (omega arith)
