-- ===== src/Request/Headers.antt =====
-- Texts of headers in front of the scanning functions of request.c and utils.c.
pub mod Line
pub mod RoundTrip
pub mod Digits
pub mod Packed
use liso.Base.{
  take_le, ◌∙◌, ℕ, zero, suc, ◌+◌, ◌-◌, ◌≤◌, ◌<◌, ◌≡◌, refl, ap, Bool, true, false, not, List, [],
  ◌∷◌, ◌++◌, ◌==◌, arith, length, take, drop, get_or, length-append, take-append_length,
}
use liso.CString.{Str, cstr, is_space}
use liso.Utils.{lead, back, strstrip}
use liso.Request.Scan.{run_length}

-- Every byte passes the test.
abbrev pub Passes : (ℕ → Bool) → Str → Type 0
Passes test [] = Unit
Passes test (c ∷ s) = (test c ≡ true) × Passes test s

pub Passes-append :
    (test : ℕ → Bool) (s t : Str) → Passes test s → Passes test t → Passes test (s ++ t)
Passes-append test [] t p q = q
Passes-append test (c ∷ s) t (h, p) q = (h, Passes-append test s t p q)

-- A scan over bytes that pass stops at the first that does not.
pub run_length-take :
    (test : ℕ → Bool) (s : Str) (c : ℕ) (rest : Str) (n : ℕ)
    → Passes test s
    → test c ≡ false
    → length s < n
    → run_length test (take n (s ++ c ∷ rest)) ≡ length s
unfolding run_length
run_length-take test s c rest zero p f h = elim h [ ]
run_length-take test [] c rest (suc n) p f h = rw f refl
run_length-take test (x ∷ s) c rest (suc n) (t, p) f h =
    rw t (ap suc (run_length-take test s c rest n p f (omega arith)))

-- A string without a terminator inside.
pub cstr-Passes : (s : Str) → Passes (λ c. not (c == 0)) s → cstr s ≡ s
unfolding cstr
cstr-Passes [] p = refl
cstr-Passes (c ∷ s) (h, p) = ground (arith, cstr-Passes s p)

drop_nil : (n : ℕ) → drop {A = ℕ} n [] ≡ []
drop_nil zero = refl
drop_nil (suc n) = refl

pub drop_add : (i j : ℕ) (m : List ℕ) → drop (i + j) m ≡ drop j (drop i m)
drop_add zero j m = ap (λ k. drop k m) (omega arith)
drop_add (suc i) j [] = rw (drop_nil (suc i + j), drop_nil j) refl
drop_add (suc i) j (x ∷ m) = let e : suc i + j ≡ suc (i + j) = omega arith in rw e (drop_add i j m)

pub get_or-append : (s : Str) (c : ℕ) (rest : Str) → get_or (s ++ c ∷ rest) (length s) 0 ≡ c
get_or-append [] c rest = refl
get_or-append (x ∷ s) c rest = get_or-append s c rest

-- The byte `k` of the first part.
pub get_or-append_lt : (s t : Str) (k : ℕ) → k < length s → get_or (s ++ t) k 0 ≡ get_or s k 0
get_or-append_lt [] t k h = elim h [ ]
get_or-append_lt (x ∷ s) t zero h = refl
get_or-append_lt (x ∷ s) t (suc k) h = get_or-append_lt s t k (omega arith)

-- Neither the first byte nor the last one is a space.
pub record IsTrimmed (s : Str) : Type 0 where
  pub some_bytes : 0 < length s
  pub first : is_space (get_or s 0 0) ≡ false
  pub last : is_space (get_or s (length s - 1) 0) ≡ false

lead_zero : (s : Str) → IsTrimmed s → lead s ≡ 0
unfolding lead
lead_zero [] v = refl
lead_zero (c ∷ s) v = let f = v.first in rw f refl

back_stop : (s : Str) (p q : ℕ) → is_space (get_or s q 0) ≡ false → back s p q ≡ q
unfolding back
back_stop s p zero h = refl
back_stop s p (suc q) h = rw h refl

-- `strstrip` leaves such a string as it is.
pub strstrip-IsTrimmed : (s : Str) → IsTrimmed s → strstrip s ≡ s
unfolding strstrip
strstrip-IsTrimmed s v =
    let n = v.some_bytes in
    let stop = back_stop s 0 (length s - 1) v.last in
    let k : length s - 1 + 1 - 0 ≡ length s = omega arith in
    let e : (0 == length s) ≡ false = ground arith in
    rw (lead_zero s v, e, stop, k) (take_le (length s) s (omega arith))

lead_append : (s t : Str) → IsTrimmed s → lead (s ++ t) ≡ 0
unfolding lead
lead_append [] t v = let n = v.some_bytes in elim n [ ]
lead_append (c ∷ s) t v = let f = v.first in rw f refl

back_step :
    (s : Str) (p q : ℕ)
    → is_space (get_or s (suc q) 0) ≡ true
    → p < suc q
    → back s p (suc q) ≡ back s p q
unfolding back
back_step s p q h lt = ground (arith, h)

-- The value of a header behind its colon, with a space in front and a carriage return behind.
pub strstrip_framed : (s : Str) → IsTrimmed s → strstrip (32 ∷ (s ++ 13 ∷ [])) ≡ s
unfolding strstrip lead is_space
strstrip_framed s v =
    let n = v.some_bytes in
    let size : length (s ++ 13 ∷ []) ≡ suc (length s) = omega (arith, length-append s (13 ∷ [])) in
    let from : suc (length s) - 1 ≡ length s = omega arith in
    let e : (1 == suc (suc (length s))) ≡ false = ground arith in
    let k : length s + 1 - 1 ≡ length s = omega arith in
    let start : suc (suc (length s)) - 1 ≡ suc (length s) = omega arith in
    rw (lead_append s (13 ∷ []) v, size, e, start, stops, k) (take-append_length s (13 ∷ []))
  where
    blank : is_space (get_or (s ++ 13 ∷ []) (length s) 0) ≡ true
    blank = rw (get_or-append s 13 []) refl

    solid : (m : ℕ) → length s ≡ suc m → is_space (get_or (32 ∷ (s ++ 13 ∷ [])) (suc m) 0) ≡ false
    solid m e =
        let k : length s - 1 ≡ m = omega arith in
        rw (get_or-append_lt s (13 ∷ []) m (omega arith), ← k) v.last

    stops_at : (m : ℕ) → length s ≡ suc m → back (32 ∷ (s ++ 13 ∷ [])) 1 (suc (length s)) ≡ length s
    stops_at m e =
        back_step (32 ∷ (s ++ 13 ∷ [])) 1 (length s) blank (omega arith)
        ∙ rw e (back_stop (32 ∷ (s ++ 13 ∷ [])) 1 (suc m) (solid m e))

    stops : back (32 ∷ (s ++ 13 ∷ [])) 1 (suc (length s)) ≡ length s
    stops = let n = v.some_bytes in stops_at (length s - 1) (omega arith)
