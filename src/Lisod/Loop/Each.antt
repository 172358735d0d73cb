-- ===== src/Lisod/Loop/Each.antt =====
-- The sockets of a part of the array of connections.
use liso.Base.{
  ℕ, zero, suc, ◌+◌, ◌≤◌, ◌<◌, ◌≡◌, refl, sym, ap, ◌∙◌, some, List, [], ◌∷◌, ◌++◌, map, arith,
  length, get_elem?, get_elem?-lt, set, take, drop, unsnoc, count, count-append, Perm-SameItems,
  take-append-drop, length-append,
}
use mathlib.Core.List.{map-append}
use liso.Conn.{Conn, Ctx, Ret}
use liso.Pool.{Pool, remove_slot}
use liso.Pool.Slots.{fds, remove_slot-snoc, remove_slot-perm}

-- The sockets of rounds of the loop.
abbrev pub round_fds : List (Conn × (Ret × Ctx Pool)) → List ℕ
round_fds = map (λ r. r.0.fd)

pub drop_all : (xs : List Conn) (i : ℕ) → length xs ≤ i → drop i xs ≡ []
drop_all [] zero h = refl
drop_all [] (suc i) h = refl
drop_all (x ∷ xs) zero h = absurd (omega arith)
drop_all (x ∷ xs) (suc i) h = drop_all xs i (omega arith)

pub drop_cons :
    (xs : List Conn) (i : ℕ) (c : Conn) → get_elem? xs i ≡ some c → drop i xs ≡ c ∷ drop (suc i) xs
drop_cons [] i c e = cc
drop_cons (x ∷ xs) zero c e = cc
drop_cons (x ∷ xs) (suc i) c e = drop_cons xs i c e

pub drop-set : (xs : List Conn) (i : ℕ) (v : Conn) → drop (suc i) (set xs i v) ≡ drop (suc i) xs
drop-set [] i v = refl
drop-set (x ∷ xs) zero v = refl
drop-set (x ∷ xs) (suc i) v = drop-set xs i v

take-set : (xs : List Conn) (i : ℕ) (v : Conn) → take i (set xs i v) ≡ take i xs
take-set [] zero v = refl
take-set [] (suc i) v = refl
take-set (x ∷ xs) zero v = refl
take-set (x ∷ xs) (suc i) v = ap (◌∷◌ x) (take-set xs i v)

take-append_le : (xs ys : List Conn) (i : ℕ) → i ≤ length xs → take i (xs ++ ys) ≡ take i xs
take-append_le xs ys zero h = refl
take-append_le [] ys (suc i) h = absurd (omega arith)
take-append_le (x ∷ xs) ys (suc i) h = ap (◌∷◌ x) (take-append_le xs ys i (omega arith))

-- Deleting the slot `i` leaves those in front of it.
take-remove_slot :
    (conns : List Conn) (i : ℕ) → i < length conns → take i (remove_slot conns i) ≡ take i conns
take-remove_slot conns i h =
    let (xs, last, e) = unsnoc conns i h in
    rw (e, remove_slot-snoc xs last i, take-set xs i (record last { idx = i }))
      (sym (
        take-append_le xs (last ∷ []) i
          (let size = ap length e in omega (arith, length-append xs (last ∷ [])))))

count-parts :
    (xs : List Conn) (i n : ℕ)
    → count n (fds xs) ≡ count n (fds (take i xs)) + count n (fds (drop i xs))
count-parts xs i n =
    ap (λ l. count n (fds l)) (sym (take-append-drop i xs))
    ∙ (ap (count n) (map-append (λ c. c.fd) (take i xs) (drop i xs))
        ∙ count-append n (fds (take i xs)) (fds (drop i xs)))

-- Deleting the slot `i` takes one socket out of those from there on.
pub drop_remove :
    (conns : List Conn) (i : ℕ) (c : Conn)
    → get_elem? conns i ≡ some c
    → (n : ℕ)
    → count n (fds (drop i conns))
      ≡ count n (c.fd ∷ []) + count n (fds (drop i (remove_slot conns i)))
drop_remove conns i c e n =
    let front = take-remove_slot conns i (get_elem?-lt conns i e) in
    omega (
      arith,
      count-parts conns i n,
      count-parts (remove_slot conns i) i n,
      ap (λ l. count n (fds l)) front,
      Perm-SameItems (c.fd ∷ fds (remove_slot conns i)) (fds conns) (remove_slot-perm conns i c e)
          n,
    )
