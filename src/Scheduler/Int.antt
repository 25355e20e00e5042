-- ===== src/Scheduler/Int.antt =====
-- `int(text)` for the numbers of a cron field, and `range`.
use Prim.Native.Char.{Char, code}
use certman.Base.{
  ℕ, zero, suc, ◌+◌, ◌-◌, ◌*◌, String, Bool, false, Option, none, some, List, [], ◌∷◌, ◌&&◌, ◌||◌,
  leb, ltb, nat_beq, if◌then◌else◌, strip,
}

abbrev pub is_digit : Char → Bool
is_digit c = leb 48 (code c) && leb (code c) 57

-- Digits, with single underscores between them; `after` says that a digit was the last character.
unfoldable pub digits : Bool → ℕ → String → Option ℕ
digits after acc String.[] = if after then some acc else none
digits after acc (String.◌∷◌ c s) =
    let rest = digits (is_digit c) (if is_digit c then acc * 10 + (code c - 48) else acc) s in
    if is_digit c || (after && nat_beq (code c) 95) then rest else none

unfoldable pub signed_digits : String → Option ℕ
unfolding digits
signed_digits String.[] = none
signed_digits (String.◌∷◌ c s) =
    if nat_beq (code c) 43 then digits false 0 s else digits false 0 (String.◌∷◌ c s)

-- `none` where `int` raises ValueError, and for a negative number, which every caller here answers
-- with ValueError too
unfoldable pub parse_int : String → Option ℕ
unfolding signed_digits
parse_int text = signed_digits (strip text)

-- `range(start, stop, step)`; `fuel` bounds the number of values, and `stop - start` is enough of it
unfoldable pub range_from : ℕ → ℕ → ℕ → ℕ → List ℕ
range_from zero start stop step = []
range_from (suc fuel) start stop step =
    let rest = range_from fuel (start + step) stop step in
    if ltb start stop then start ∷ rest else []

unfoldable pub range : ℕ → ℕ → ℕ → List ℕ
unfolding range_from
range start stop step = range_from (stop - start) start stop step
