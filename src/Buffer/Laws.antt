-- ===== src/Buffer/Laws.antt =====
-- What a `memcpy` into a buffer leaves there.
use liso.Base.{
  ◌++◌, get_or, length-take, length-drop, ◌<◌, ◌∙◌, ℕ, zero, suc, ◌+◌, ◌≤◌, ◌≡◌, refl, ap, List, [],
  ◌∷◌, arith, length, take, drop,
}
use liso.Buffer.{write_at}

pub length-write_at : (m : List ℕ) (i : ℕ) (xs : List ℕ) → length (write_at m i xs) ≡ length m
unfolding write_at
length-write_at [] i xs = refl
length-write_at (m ∷ ms) zero [] = refl
length-write_at (m ∷ ms) zero (x ∷ xs) = ap suc (length-write_at ms zero xs)
length-write_at (m ∷ ms) (suc i) xs = ap suc (length-write_at ms i xs)

-- The bytes below the copy stay.
pub take-write_at :
    (m : List ℕ) (i n : ℕ) (xs : List ℕ) → n ≤ i → take n (write_at m i xs) ≡ take n m
unfolding write_at
take-write_at [] i n xs h = refl
take-write_at (m ∷ ms) i zero xs h = refl
take-write_at (m ∷ ms) zero (suc n) xs h = absurd (omega arith)
take-write_at (m ∷ ms) (suc i) (suc n) xs h = ap (◌∷◌ m) (take-write_at ms i n xs (omega arith))

-- The bytes of the copy are what was copied.
pub take-drop-write_at :
    (m : List ℕ) (i : ℕ) (xs : List ℕ)
    → i + length xs ≤ length m
    → take (length xs) (drop i (write_at m i xs)) ≡ xs
unfolding write_at
take-drop-write_at [] zero [] h = refl
take-drop-write_at [] zero (x ∷ xs) h = absurd (omega arith)
take-drop-write_at [] (suc i) xs h = absurd (omega arith)
take-drop-write_at (m ∷ ms) zero [] h = refl
take-drop-write_at (m ∷ ms) zero (x ∷ xs) h =
    ap (◌∷◌ x) (take-drop-write_at ms zero xs (omega arith))
take-drop-write_at (m ∷ ms) (suc i) xs h = take-drop-write_at ms i xs (omega arith)

pub get_or-write_at :
    (m : List ℕ) (i k : ℕ) (xs : List ℕ)
    → i + length xs ≤ length m
    → k < length xs
    → get_or (write_at m i xs) (i + k) 0 ≡ get_or xs k 0
unfolding write_at
get_or-write_at [] zero k (x ∷ xs) h lt = absurd (omega arith)
get_or-write_at [] zero k [] h lt = elim lt [ ]
get_or-write_at [] (suc i) k xs h lt = absurd (omega arith)
get_or-write_at (m ∷ ms) zero k [] h lt = elim lt [ ]
get_or-write_at (m ∷ ms) zero zero (x ∷ xs) h lt = ground arith
get_or-write_at (m ∷ ms) zero (suc k) (x ∷ xs) h lt = ground (arith, get_or-write_at ms zero k xs)
get_or-write_at (m ∷ ms) (suc i) k xs h lt = ground (arith, get_or-write_at ms i k xs)

pub length-slice : (m : List ℕ) (i n : ℕ) → i + n ≤ length m → length (take n (drop i m)) ≡ n
length-slice m i n h = omega (arith, length-take n (drop i m), length-drop i m)

pub get_or-write_at_zero :
    (m : List ℕ) (k : ℕ) (xs : List ℕ)
    → length xs ≤ length m
    → k < length xs
    → get_or (write_at m 0 xs) k 0 ≡ get_or xs k 0
get_or-write_at_zero m k xs h lt =
    let i : k ≡ 0 + k = omega arith in
    ap (λ j. get_or (write_at m 0 xs) j 0) i ∙ get_or-write_at m 0 k xs (omega arith) lt

-- A string with its terminator at the start of an array with room for them.
pub write_at_front :
    (m s : List ℕ) → length s < length m → (u : List ℕ) × (write_at m 0 (s ++ 0 ∷ []) ≡ s ++ 0 ∷ u)
unfolding write_at
write_at_front [] s h = elim h [ ]
write_at_front (a ∷ m) [] h = (write_at m 0 [], refl)
write_at_front (a ∷ m) (x ∷ s) h =
    let (u, e) = write_at_front m s (omega arith) in (u, ap (◌∷◌ x) e)
