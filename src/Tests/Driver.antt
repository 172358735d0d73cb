-- ===== src/Tests/Driver.antt =====
-- test_driver.c: its assertions on the string helpers.
use liso.Base.{◌≡◌, refl, Bool, true, false, not, ◌&&◌, [], ◌∷◌, ◌==◌, codes}
use liso.CString.{Str, is_space, is_digit, strneq}
use liso.Utils.{strstrip, lead, back, isnum, strstartswith}

-- `strcmp` that gives 0.
abbrev strings_eq : Str → Str → Bool
strings_eq [] [] = true
strings_eq [] (y ∷ t) = false
strings_eq (x ∷ s) [] = false
strings_eq (x ∷ s) (y ∷ t) = (x == y) && strings_eq s t

-- `_test_strstrip`
unfoldable strips_to : Str → Str → Bool
strips_to str tgt = strings_eq tgt (strstrip str)

unfoldable test_strstrip : Bool
test_strstrip =
    strips_to (codes " abc  ") (codes "abc")
    && strips_to (9 ∷ 13 ∷ 97 ∷ 98 ∷ 99 ∷ 10 ∷ []) (codes "abc")
    && strips_to (9 ∷ 13 ∷ 10 ∷ []) []

unfoldable test_isnum : Bool
test_isnum = isnum (codes "1234567890") && isnum [] && not (isnum (codes "92x"))

unfoldable test_strstartswith : Bool
test_strstartswith =
    strstartswith (codes "abc") (codes "a")
    && not (strstartswith (codes "b") (codes "bc"))
    && not (strstartswith (codes "bc") (codes "cd"))
    && strstartswith (codes "abc") (codes "abc")

-- `main` of the test driver ends without a failed assertion.
driver_passes : (test_strstrip ≡ true) × (test_isnum ≡ true) × (test_strstartswith ≡ true)
unfolding test_strstrip test_isnum test_strstartswith strips_to strstrip lead back isnum
    strstartswith is_space is_digit strneq
driver_passes = (refl, refl, refl)
