-- ===== src/Pool/Slots.antt =====
-- The array of connections under `pl_add_conn` and `pl_del_conn`.
use liso.Base.{
  ℕ, zero, suc, dec_lt, ◌-◌, ◌<◌, ◌≡◌, refl, sym, ap, ◌∙◌, ◌≢◌, some, List, [], ◌∷◌, ◌++◌, map,
  arith, length, get_elem?, set, unsnoc, get_elem?-snoc, take-set-snoc, get_elem?-append_lt,
  get_elem?-lt, get_elem?-set_self, get_elem?-set_ne, length-set, length-append, ℕ_discrete,
}
use mathlib.Core.List.{Perm, perm_append_singleton, map-append}
use mathlib.Core.List.Perm
use liso.Conn.{Conn}
use liso.Pool.{remove_slot, move_last}

-- Each connection knows its slot.
abbrev pub IsIndexed : List Conn → Type 0
IsIndexed conns = (i : ℕ) (c : Conn) → get_elem? conns i ≡ some c → c.idx ≡ i

length-snoc : (xs : List Conn) (x : Conn) → length (xs ++ x ∷ []) - 1 ≡ length xs
length-snoc xs x = omega (arith, length-append xs (x ∷ []))

-- Deleting the slot `i` puts the last connection there, or drops it if it is the last itself.
pub remove_slot-snoc :
    (xs : List Conn) (last : Conn) (i : ℕ)
    → remove_slot (xs ++ last ∷ []) i ≡ set xs i (record last { idx = i })
unfolding remove_slot move_last
remove_slot-snoc xs last i =
    rw (length-snoc xs last, get_elem?-snoc xs last, length-snoc xs last)
      (take-set-snoc xs last i _)

set-IsIndexed :
    (xs : List Conn) (i : ℕ) (c : Conn)
    → c.idx ≡ i
    → ((j : ℕ) (d : Conn) → i ≢ j → get_elem? xs j ≡ some d → d.idx ≡ j)
    → IsIndexed (set xs i c)
set-IsIndexed xs i c own others j d e = elim (ℕ_discrete i j) [
  | yes p ↦
      let inside : i < length xs = rw (p, ← length-set xs i c) (get_elem?-lt (set xs i c) j e) in
      cc (get_elem?-set_self xs i c inside)
  | no p ↦ others j d p (sym (get_elem?-set_ne xs i j c p) ∙ e)
]

-- A write of the connection of a slot keeps the slots.
pub set_same-IsIndexed :
    (xs : List Conn) (i : ℕ) (c : Conn) → c.idx ≡ i → IsIndexed xs → IsIndexed (set xs i c)
set_same-IsIndexed xs i c own v = set-IsIndexed xs i c own (λ j d _ e. v j d e)

snoc-IsIndexed_init : (xs : List Conn) (x : Conn) → IsIndexed (xs ++ x ∷ []) → IsIndexed xs
snoc-IsIndexed_init xs x v i c e =
    v i c (get_elem?-append_lt xs (x ∷ []) i (get_elem?-lt xs i e) ∙ e)

pub remove_slot-IsIndexed :
    (conns : List Conn) (i : ℕ)
    → i < length conns
    → IsIndexed conns
    → IsIndexed (remove_slot conns i)
remove_slot-IsIndexed conns i h v =
    let (xs, last, e) = unsnoc conns i h in
    let v' : IsIndexed (xs ++ last ∷ []) = rw e at v in
    rw (e, remove_slot-snoc xs last i)
      (set_same-IsIndexed xs i (record last { idx = i }) refl (snoc-IsIndexed_init xs last v'))

pub length-remove_slot :
    (conns : List Conn) (i : ℕ)
    → i < length conns
    → suc (length (remove_slot conns i)) ≡ length conns
length-remove_slot conns i h =
    let (xs, last, e) = unsnoc conns i h in
    rw (e, remove_slot-snoc xs last i)
      (omega (arith, length-set xs i (record last { idx = i }), length-append xs (last ∷ [])))

-- A new connection at the end, with the index of its slot.
pub append-IsIndexed :
    (conns : List Conn) (c : Conn)
    → c.idx ≡ length conns
    → IsIndexed conns
    → IsIndexed (conns ++ c ∷ [])
append-IsIndexed conns c own v i d e = elim (ℕ_discrete i (length conns)) [
  | yes p ↦ own_slot p
  | no p ↦ v i d (sym (get_elem?-append_lt conns (c ∷ []) i (below p)) ∙ e)
]
  where
    below : i ≢ length conns → i < length conns
    below p = omega (arith, get_elem?-lt (conns ++ c ∷ []) i e, length-append conns (c ∷ []))

    own_slot : i ≡ length conns → d.idx ≡ i
    own_slot p = cc (get_elem?-snoc conns c)

abbrev pub fds : List Conn → List ℕ
fds = map (λ c. c.fd)

perm_set :
    (xs : List Conn) (last c : Conn) (i : ℕ)
    → get_elem? xs i ≡ some c
    → Perm (c.fd ∷ fds (set xs i last)) (fds (xs ++ last ∷ []))
perm_set [] last c i e = cc
perm_set (x ∷ xs) last c zero e =
    let same : c.fd ≡ x.fd = ground arith in
    rw (same, map-append) (Perm.cons x.fd (Perm.symm (perm_append_singleton last.fd (fds xs))))
perm_set (x ∷ xs) last c (suc i) e =
    Perm.trans (Perm.swap x.fd c.fd (fds (set xs i last))) (Perm.cons x.fd (perm_set xs last c i e))

-- Setting a field that is not `fd` moves nothing.
set_idx-fds :
    (xs : List Conn) (i j : ℕ) (c : Conn) → fds (set xs i (record c { idx = j })) ≡ fds (set xs i c)
set_idx-fds [] i j c = refl
set_idx-fds (x ∷ xs) zero j c = refl
set_idx-fds (x ∷ xs) (suc i) j c = ap (◌∷◌ x.fd) (set_idx-fds xs i j c)

set_last-fds : (xs : List Conn) (last : Conn) (i : ℕ) → length xs ≡ i → fds (set xs i last) ≡ fds xs
set_last-fds [] last i e = refl
set_last-fds (x ∷ xs) last zero e = absurd (omega arith)
set_last-fds (x ∷ xs) last (suc i) e = ap (◌∷◌ x.fd) (set_last-fds xs last i (omega arith))

-- Deleting the connection of a slot takes its descriptor out of the array, once, and keeps those
-- of all others.
pub remove_slot-perm :
    (conns : List Conn) (i : ℕ) (c : Conn)
    → get_elem? conns i ≡ some c
    → Perm (c.fd ∷ fds (remove_slot conns i)) (fds conns)
remove_slot-perm conns i c e =
    let (xs, last, split) = unsnoc conns i (get_elem?-lt conns i e) in
    let e' : get_elem? (xs ++ last ∷ []) i ≡ some c = rw split at e in
    rw (split, remove_slot-snoc xs last i, set_idx-fds xs i i last)
      (elim (dec_lt i (length xs)) [
        | yes p ↦ perm_set xs last c i (sym (get_elem?-append_lt xs (last ∷ []) i p) ∙ e')
        | no p ↦ at_end xs last p e'
      ])
  where
    at_end :
        (xs : List Conn) (last : Conn)
        → ¬ (i < length xs)
        → get_elem? (xs ++ last ∷ []) i ≡ some c
        → Perm (c.fd ∷ fds (set xs i last)) (fds (xs ++ last ∷ []))
    at_end xs last p e' =
        let here : length xs ≡ i =
          omega (arith, get_elem?-lt (xs ++ last ∷ []) i e', length-append xs (last ∷ [])) in
        let same : c.fd ≡ last.fd = ground (arith, get_elem?-snoc xs last, here) in
        rw (set_last-fds xs last i here, same, map-append)
          (Perm.symm (perm_append_singleton last.fd (fds xs)))
