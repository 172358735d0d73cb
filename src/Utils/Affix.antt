-- ===== src/Utils/Affix.antt =====
-- The affix tests of utils.c against their descriptions as a split of the string.
use liso.Base.{
  ℕ, suc, ◌-◌, ◌≡◌, refl, sym, ap, ◌∙◌, ◌↔◌, true, [], ◌∷◌, ◌++◌, map, arith, length, drop, take,
  take-append-drop, length-append, some, length-drop, drop-append_length, ltb, inl, inr, Bool-cases,
}
use liso.CString.{Str, lower, strncaseeq, strneq}
use liso.Utils.{caseendswith, strstartswith}

strneq-split : (s t : Str) → strneq s t (length t) ≡ true → s ≡ t ++ drop (length t) s
unfolding strneq
strneq-split s [] h = refl
strneq-split [] (y ∷ t) h = cc
strneq-split (x ∷ s) (y ∷ t) h = ground (arith, strneq-split s t)

strneq-append : (t r : Str) → strneq (t ++ r) t (length t) ≡ true
unfolding strneq
strneq-append [] r = refl
strneq-append (y ∷ t) r = ground (arith, strneq-append t r)

-- `strstartswith` accepts exactly the strings that begin with the prefix.
strstartswith_iff : (s t : Str) → (strstartswith s t ≡ true) ↔ ((r : Str) × (s ≡ t ++ r))
unfolding strstartswith
strstartswith_iff s t =
    (λ h. (drop (length t) s, strneq-split s t h), λ split. rw split.1 (strneq-append t split.0))

strncaseeq-lower :
    (u t : Str) → length u ≡ length t → strncaseeq u t (length t) ≡ true → map lower u ≡ map lower t
unfolding strncaseeq
strncaseeq-lower [] [] e h = refl
strncaseeq-lower [] (y ∷ t) e h = absurd (omega arith)
strncaseeq-lower (x ∷ u) [] e h = absurd (omega arith)
strncaseeq-lower (x ∷ u) (y ∷ t) e h = ground (arith, strncaseeq-lower u t)

lower-strncaseeq : (u t : Str) → map lower u ≡ map lower t → strncaseeq u t (length t) ≡ true
unfolding strncaseeq
lower-strncaseeq [] [] e = refl
lower-strncaseeq [] (y ∷ t) e = cc
lower-strncaseeq (x ∷ u) [] e = cc
lower-strncaseeq (x ∷ u) (y ∷ t) e = ground (arith, lower-strncaseeq u t)

length-lower : (u : Str) → length (map lower u) ≡ length u
length-lower [] = refl
length-lower (x ∷ u) = ap suc (length-lower u)

-- `caseendswith` accepts exactly the strings that end with the suffix, up to the case of letters.
caseendswith_iff :
    (s t : Str)
    → (caseendswith (some s) (some t) ≡ true)
      ↔ ((p u : Str) × (s ≡ p ++ u) × (map lower u ≡ map lower t))
unfolding caseendswith
caseendswith_iff s t = (there, back)
  where
    n : ℕ
    n = length s - length t

    there :
        caseendswith (some s) (some t) ≡ true
        → (p u : Str) × (s ≡ p ++ u) × (map lower u ≡ map lower t)
    there h = elim (Bool-cases (ltb (length s) (length t))) [
      | inl short ↦ absurd (ground arith)
      | inr long ↦ (
        take n s,
        drop n s,
        sym (take-append-drop n s),
        strncaseeq-lower (drop n s) t (ground (arith, length-drop n s)) (ground arith),
      )
    ]

    back :
        (p u : Str) × (s ≡ p ++ u) × (map lower u ≡ map lower t)
        → caseendswith (some s) (some t) ≡ true
    back (p, u, e, same) =
        let size : length u ≡ length t = sym (length-lower u) ∙ (ap length same ∙ length-lower t) in
        let total = ap length e ∙ length-append p u in
        let k : n ≡ length p = omega arith in
        let end : drop n s ≡ u = rw (k, e) (drop-append_length p u) in
        ground (arith, end, total, size, lower-strncaseeq u t same)
