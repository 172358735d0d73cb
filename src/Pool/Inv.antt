-- ===== src/Pool/Inv.antt =====
-- The invariant of the pool, and `pl_add_conn` and `pl_del_conn` under it.
use liso.Base.{
  ℕ, ◌⊎◌, ◌≤◌, ◌<◌, ◌≡◌, ◌≢◌, refl, sym, ◌∙◌, true, false, some, List, [], ◌∷◌, ◌++◌, arith, length,
  get_elem?, set, length-append, Bool-cases, inl, inr, leb, unsnoc, get_elem?-append_lt,
  get_elem?-lt, get_elem?-set_ne, length-set,
}
use liso.Conn.{Conn}
use liso.Pool.{Pool, max_conns, pl_add_conn, remove_slot}
use liso.Pool.Slots.{
  IsIndexed, append-IsIndexed, remove_slot-IsIndexed, remove_slot-snoc, length-remove_slot,
  set_same-IsIndexed,
}

-- Every connection knows its slot, and the array is not overfull.
pub record IsValid (conns : List Conn) : Type 0 where
  pub indexed : IsIndexed conns
  pub bounded : length conns ≤ max_conns

-- `pl_add_conn` keeps the invariant. Either there was room, and it appends the connection with the
-- index of its slot, and `select` reads its descriptor; or the array was full, and it fails and
-- changes nothing.
add_conn_lem :
    (p : Pool) (c : Conn)
    → IsValid p.conns
    → IsValid (pl_add_conn p c).0.conns
      × (((length p.conns < max_conns)
            × ((pl_add_conn p c).1 ≡ true)
            × ((pl_add_conn p c).0.conns ≡ p.conns ++ (record c { idx = length p.conns } ∷ []))
            × ((pl_add_conn p c).0.read_set c.fd ≡ true))
          ⊎ ((max_conns ≤ length p.conns) × (pl_add_conn p c ≡ (p, false))))
unfolding pl_add_conn
add_conn_lem p c v = elim (Bool-cases (leb max_conns (length p.conns))) [
  | inl full ↦ rw full (v, inr (ground arith, refl))
  | inr room ↦ rw room (
    record {
      indexed = append-IsIndexed p.conns (record c { idx = length p.conns }) refl v.indexed;
      bounded = ground (arith, length-append p.conns (record c { idx = length p.conns } ∷ []));
    },
    inl (ground arith, refl, refl, ground arith),
  )
]

pub remove_slot-IsValid :
    (conns : List Conn) (i : ℕ) → i < length conns → IsValid conns → IsValid (remove_slot conns i)
remove_slot-IsValid conns i h v = record {
  indexed = remove_slot-IsIndexed conns i h v.indexed;
  bounded = let b = v.bounded in omega (arith, length-remove_slot conns i h);
}

pub set-IsValid :
    (conns : List Conn) (i : ℕ) (c : Conn) → c.idx ≡ i → IsValid conns → IsValid (set conns i c)
set-IsValid conns i c own v = record {
  indexed = set_same-IsIndexed conns i c own v.indexed;
  bounded = let b = v.bounded in omega (arith, length-set conns i c);
}

-- The slots in front of a deleted one keep their connections.
pub get_elem?-remove_slot :
    (conns : List Conn) (i j : ℕ) {d : Conn}
    → i < length conns
    → j < i
    → get_elem? (remove_slot conns i) j ≡ some d
    → get_elem? conns j ≡ some d
get_elem?-remove_slot conns i j {d} h lt e =
    let ne : i ≢ j = omega arith in
    let (xs, last, split) = unsnoc conns i h in
    let moved = record last { idx = i } in
    let e1 : get_elem? (set xs i moved) j ≡ some d = rw (← remove_slot-snoc xs last i, ← split) e in
    let e2 = sym (get_elem?-set_ne xs i j moved ne) ∙ e1 in
    rw split (get_elem?-append_lt xs (last ∷ []) j (get_elem?-lt xs j e2) ∙ e2)
