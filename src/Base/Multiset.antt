-- ===== src/Base/Multiset.antt =====
-- How often a number occurs in a list, and lists up to the order of their elements.
use Prim.Native.Nat.{ℕ, ◌+◌, ◌≤◌}
use mathlib.Core.Path.{◌≡◌, ap, refl, ◌∙◌}
use mathlib.Core.List.{List, [], ◌∷◌, ◌++◌, Perm}
use mathlib.Core.List.{Permᴰ}
use mathlib.Core.List.Permᴰ.{nil, cons, swap, trans}
use mathlib.Core.Logic.{∥∥₁_elim}
use native.Mathlib.Nat.{ℕ_set}
use mathlib.Core.Quot
use mathlib.Core.Quot.{Quot, Quot-set}
use native.Mathlib.Omega.{arith}
use liso.Base.Tests.{◌==◌, if◌then◌else◌}

abbrev pub count : ℕ → List ℕ → ℕ
count fd [] = 0
count fd (x ∷ xs) = (if x == fd then 1 else 0) + count fd xs

pub count-append : (n : ℕ) (xs ys : List ℕ) → count n (xs ++ ys) ≡ count n xs + count n ys
count-append n [] ys = omega arith
count-append n (x ∷ xs) ys = omega (arith, count-append n xs ys)

-- Every number occurs in the second list as often as in the first at least.
abbrev pub Grows : List ℕ → List ℕ → Type 0
Grows xs ys = (n : ℕ) → count n xs ≤ count n ys

pub Grows-append : (xs ys : List ℕ) → Grows xs (xs ++ ys)
Grows-append xs ys n = omega (arith, count-append n xs ys)

-- The same elements, as often.
abbrev pub SameItems : List ℕ → List ℕ → Type 0
SameItems xs ys = (n : ℕ) → count n xs ≡ count n ys

pub SameItems-comm : (xs ys : List ℕ) → SameItems (xs ++ ys) (ys ++ xs)
SameItems-comm xs ys n = omega (arith, count-append n xs ys, count-append n ys xs)

items : {xs ys : List ℕ} → Permᴰ xs ys → SameItems xs ys
items nil n = refl
items (cons e d) n = omega (arith, ap (λ k. count n (k ∷ [])) e, items d n)
items (swap e f) n = omega (arith, ap (λ k. count n (k ∷ [])) e, ap (λ k. count n (k ∷ [])) f)
items (trans d d') n = items d n ∙ items d' n

pub Perm-SameItems : (xs ys : List ℕ) → Perm xs ys → SameItems xs ys
Perm-SameItems xs ys p n = ∥∥₁_elim p (ℕ_set _ _) (λ d. items d n)

-- A list without its order.
abbrev pub Bag : Type 0
Bag = Quot SameItems

abbrev pub of_list : List ℕ → Bag
of_list = Quot.mk

unfoldable pub put : ℕ → Bag → Bag
put x = Quot.lift Quot-set (λ xs. of_list (x ∷ xs)) λ xs ys h. Quot.sound λ n. omega (arith, h n)

pub put-of_list : (x : ℕ) (xs ys : List ℕ) → SameItems (x ∷ xs) ys → put x (of_list xs) ≡ of_list ys
unfolding put
put-of_list x xs ys h = Quot.sound h

unfoldable pub occurrences : ℕ → Bag → ℕ
occurrences n = Quot.lift ℕ_set (count n) λ xs ys h. h n

pub occurrences-put :
    (n x : ℕ) (b : Bag) → occurrences n (put x b) ≡ count n (x ∷ []) + occurrences n b
unfolding occurrences put
occurrences-put n x = Quot.ind (λ b. ℕ_set _ _) (λ xs. omega arith)
