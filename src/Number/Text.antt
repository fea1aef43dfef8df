-- ===== src/Number/Text.antt =====
-- `n.toString()` of a whole number, in decimal digits.
use citrineos_ocpi.Prelude.{ℕ, zero, suc, ◌/◌, ◌%◌, ltb, String, if◌then◌else◌}

-- The character of the text at the place, put before s.
abbrev character_before : String → ℕ → String → String
character_before String.[] n s = s
character_before (String.◌∷◌ c cs) zero s = String.◌∷◌ c s
character_before (String.◌∷◌ c cs) (suc n) s = character_before cs n s

abbrev digit_before : ℕ → String → String
digit_before = character_before "0123456789"

-- The digits of n before s. A number has no more digits than one more than its value.
abbrev digits_before : ℕ → ℕ → String → String
digits_before zero n s = s
digits_before (suc fuel) n s =
    let rest = digits_before fuel (n / 10) (digit_before (n % 10) s) in
    if ltb n 10 then digit_before n s else rest

abbrev pub to_text : ℕ → String
to_text n = digits_before (suc n) n String.[]
