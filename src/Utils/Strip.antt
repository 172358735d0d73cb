-- ===== src/Utils/Strip.antt =====
-- `strstrip` of utils.c.
use liso.Base.{
  ℕ, zero, suc, ◌+◌, ◌-◌, ◌≤◌, ◌<◌, ◌≡◌, ◌⊎◌, inl, inr, refl, Bool-cases, true, false, [], ◌∷◌,
  arith, length, get_or, take, drop, ltb, dec_lt,
}
use liso.CString.{Str, is_space}
use liso.Utils.{lead, back, strstrip}

-- The bytes of [i, j) are spaces.
abbrev pub Spaces : Str → ℕ → ℕ → Type 0
Spaces s i j = (k : ℕ) → i ≤ k → k < j → is_space (get_or s k 0) ≡ true

-- `lead` stops at the end or at the first byte that is no space.
lead_lem :
    (s : Str)
    → Spaces s 0 (lead s)
      × ((lead s ≡ length s) ⊎ ((lead s < length s) × (is_space (get_or s (lead s) 0) ≡ false)))
unfolding lead
lead_lem [] = (λ k lo hi. elim hi [ ], inl refl)
lead_lem (c ∷ s) = elim (Bool-cases (is_space c)) [
  | inr solid ↦ rw solid (λ k lo hi. elim hi [ ], inr (omega arith, solid))
  | inl blank ↦ rw blank (first blank (lead_lem s).0, rest (lead_lem s).1)
]
  where
    first : is_space c ≡ true → Spaces s 0 (lead s) → Spaces (c ∷ s) 0 (suc (lead s))
    first blank all zero lo hi = blank
    first blank all (suc k) lo hi = all k (omega arith) (omega arith)

    rest :
        (lead s ≡ length s) ⊎ ((lead s < length s) × (is_space (get_or s (lead s) 0) ≡ false))
        → (suc (lead s) ≡ suc (length s))
          ⊎ ((suc (lead s) < suc (length s)) × (is_space (get_or s (lead s) 0) ≡ false))
    rest (inl e) = inl (omega arith)
    rest (inr (lt, solid)) = inr (omega arith, solid)

-- `back` stops at `p` or at the last byte that is no space.
back_lem :
    (s : Str) (p q : ℕ)
    → p ≤ q
    → is_space (get_or s p 0) ≡ false
    → (p ≤ back s p q)
      × (back s p q ≤ q)
      × (is_space (get_or s (back s p q) 0) ≡ false)
      × Spaces s (suc (back s p q)) (suc q)
unfolding back
back_lem s p zero le solid =
    let z : p ≡ 0 = omega arith in
    (omega arith, omega arith, rw z at solid, λ k lo hi. absurd (omega arith))
back_lem s p (suc q) le solid = elim (Bool-cases (is_space (get_or s (suc q) 0))) [
  | inr stop ↦ rw stop (le, omega arith, stop, λ k lo hi. absurd (omega arith))
  | inl go ↦ elim (Bool-cases (ltb p (suc q))) [
    | inl more ↦
        let (a, b, c, d) = back_lem s p q (ground arith) solid in
        rw (go, more) (a, omega arith, c, longer go d)
    | inr end ↦
        let e : p ≡ suc q = ground arith in
        rw (go, end) (le, omega arith, rw e at solid, λ k lo hi. absurd (omega arith))
  ]
]
  where
    longer :
        is_space (get_or s (suc q) 0) ≡ true
        → Spaces s (suc (back s p q)) (suc q)
        → Spaces s (suc (back s p q)) (suc (suc q))
    longer go all k lo hi = elim (dec_lt k (suc q)) [
      | yes h ↦ all k lo h
      | no h ↦ let e : k ≡ suc q = omega arith in rw e go
    ]

-- `strstrip` of a string of spaces is empty; of any other it is the part from the first byte that is
-- no space to the last one, with nothing but spaces in front of it and behind it.
pub strstrip_lem :
    (s : Str)
    → (Spaces s 0 (length s) × (strstrip s ≡ []))
      ⊎ ((i j : ℕ) × (i ≤ j)
          × (j < length s)
          × (strstrip s ≡ take (j + 1 - i) (drop i s))
          × Spaces s 0 i
          × (is_space (get_or s i 0) ≡ false)
          × (is_space (get_or s j 0) ≡ false)
          × Spaces s (suc j) (length s))
unfolding strstrip
strstrip_lem s = elim (lead_lem s).1 [
  | inl e ↦ inl (rw e at (lead_lem s).0, ground (arith, e))
  | inr (lt, solid) ↦
      let last : suc (length s - 1) ≡ length s = omega arith in
      let (a, b, c, d) = back_lem s (lead s) (length s - 1) (omega arith) solid in
      inr (
        lead s,
        back s (lead s) (length s - 1),
        a,
        omega arith,
        ground (arith, lt),
        (lead_lem s).0,
        solid,
        c,
        rw last at d,
      )
]
