-- ===== src/Scheduler/Cron.antt =====
-- certman/scheduler/runner.py: cron expressions. A set of numbers is a list of them.
pub mod Laws
use Prim.Native.Char.{Char}
use Prim.Native.String.{slice, len}
use certman.Base.{
  ℕ, ◌+◌, ◌-◌, ◌%◌, String, Bool, true, false, Option, none, some, List, [], ◌∷◌, ◌++◌, Result, ok,
  err, ◌==◌, ◌&&◌, ◌||◌, not, leb, ltb, nat_beq, if◌then◌else◌, any, all, filter, truthy, strip,
  split_once, split_all, is_space,
}
use text.Mathlib.Text.{starts_with}
use certman.Scheduler.Int.{parse_int, range}

-- ValueError
pub data CronError : Type 0 where
  value_error : CronError

abbrev pub or_value_error : {A : Type 0} → Option A → Result CronError A
or_value_error none = err value_error
or_value_error (some a) = ok a

abbrev dash : Char
dash = "-"

abbrev comma : Char
comma = ","

abbrev pub in_bounds : ℕ → ℕ → ℕ → Bool
in_bounds minimum maximum v = not (ltb v minimum || ltb maximum v)

unfoldable pub range_values : ℕ → ℕ → Option ℕ → Option ℕ → Result CronError (List ℕ)
range_values minimum maximum (some start) (some end) =
    let values = range start (end + 1) 1 in
    if ltb end start
    then err value_error
    else if all (in_bounds minimum maximum) values
    then ok values
    else err value_error
range_values minimum maximum _ _ = err value_error

unfoldable pub single_value : ℕ → ℕ → Option ℕ → Result CronError (List ℕ)
single_value minimum maximum none = err value_error
single_value minimum maximum (some value) =
    if in_bounds minimum maximum value then ok (value ∷ []) else err value_error

-- the body of the loop over the parts, for the part stripped
unfoldable pub part_values : ℕ → ℕ → String → Result CronError (List ℕ)
unfolding range_values single_value
part_values minimum maximum part =
    if not (truthy part) then err value_error else elim (split_once dash part) [
      | some (left, right) ↦ range_values minimum maximum (parse_int left) (parse_int right)
      | none ↦ single_value minimum maximum (parse_int part)
    ]

unfoldable pub parts_values : ℕ → ℕ → List String → Result CronError (List ℕ)
unfolding part_values
parts_values minimum maximum [] = ok []
parts_values minimum maximum (part ∷ parts) =
    let others = parts_values minimum maximum parts in
    elim (part_values minimum maximum (strip part)) [
      | err e ↦ err e
      | ok values ↦ elim others [ err e ↦ err e | ok more ↦ ok (values ++ more) ]
    ]

unfoldable pub stepped : ℕ → ℕ → Option ℕ → Result CronError (List ℕ)
stepped minimum maximum none = err value_error
stepped minimum maximum (some step) =
    if leb step 0 then err value_error else ok (range minimum (maximum + 1) step)

unfoldable pub field_values : ℕ → ℕ → String → Result CronError (List ℕ)
unfolding stepped parts_values
field_values minimum maximum token =
    if token == "*"
    then ok (range minimum (maximum + 1) 1)
    else if starts_with token "*/"
    then stepped minimum maximum (parse_int (slice token 2 (len token)))
    else parts_values minimum maximum (split_all comma token)

unfoldable pub parse_cron_field : String → ℕ → ℕ → Result CronError (List ℕ)
unfolding field_values
parse_cron_field token minimum maximum = field_values minimum maximum (strip token)

-- `expr.split()`
unfoldable pub split_words : String → List String
split_words String.[] = "" ∷ []
split_words (String.◌∷◌ c s) =
    let rest = split_words s in
    if is_space c
    then "" ∷ rest
    else elim rest [ [] ↦ String.◌∷◌ c "" ∷ [] | w ∷ ws ↦ String.◌∷◌ c w ∷ ws ]

abbrev pub words : String → List String
words text = filter truthy (split_words text)

pub record Cron : Type 0 where
  pub minute : List ℕ
  pub hour : List ℕ
  pub day : List ℕ
  pub month : List ℕ
  pub weekday : List ℕ

-- Sunday as 7 becomes Sunday as 0.
unfoldable pub sunday_as_zero : List ℕ → List ℕ
sunday_as_zero weekday =
    if any (nat_beq 7) weekday then 0 ∷ filter (λ v. not (nat_beq v 7)) weekday else weekday

unfoldable pub parse_fields : List String → Result CronError Cron
unfolding parse_cron_field sunday_as_zero
parse_fields (a ∷ b ∷ c ∷ d ∷ e ∷ []) = elim (parse_cron_field a 0 59) [
  | err x ↦ err x
  | ok minute ↦ elim (parse_cron_field b 0 23) [
    | err x ↦ err x
    | ok hour ↦ elim (parse_cron_field c 1 31) [
      | err x ↦ err x
      | ok day ↦ elim (parse_cron_field d 1 12) [
        | err x ↦ err x
        | ok month ↦ elim (parse_cron_field e 0 7) [
          | err x ↦ err x
          | ok weekday ↦ ok (record {
            minute = minute;
            hour = hour;
            day = day;
            month = month;
            weekday = sunday_as_zero weekday;
          })
        ]
      ]
    ]
  ]
]
parse_fields _ = err value_error

unfoldable pub parse_cron_expr : String → Result CronError Cron
unfolding parse_fields split_words
parse_cron_expr expr = parse_fields (words expr)

-- What a datetime says of the calendar.
pub record Moment : Type 0 where
  pub year : ℕ
  pub month : ℕ
  pub day : ℕ
  pub hour : ℕ
  pub minute : ℕ
  pub isoweekday : ℕ

unfoldable pub is_match : Moment → Cron → Bool
is_match now cron =
    any (nat_beq now.minute) cron.minute
    && any (nat_beq now.hour) cron.hour
    && any (nat_beq now.day) cron.day
    && any (nat_beq now.month) cron.month
    && any (nat_beq (now.isoweekday % 7)) cron.weekday

unfoldable pub matches_cron : String → Moment → Result CronError Bool
unfolding parse_cron_expr is_match
matches_cron expr now = elim (parse_cron_expr expr) [
  | err e ↦ err e
  | ok cron ↦ ok (is_match now cron)
]
