-- ===== src/Scheduler/Cron/Laws.antt =====
-- What a parsed cron expression can match.
use certman.Base.{
  ℕ, zero, suc, ◌+◌, ◌-◌, ◌*◌, ◌≤◌, ◌<◌, String, ◌≡◌, refl, sym, true, false, Option, none, some,
  List, [], ◌∷◌, ◌++◌, ok, ◌==◌, not, ltb, nat_beq, any, all, filter, strip, split_once, split_all,
  All, All-append, Result-cases, Option-cases, Bool-cases, inl, inr, arith, eq_iff,
}
use Prim.Native.String.{slice, len}
use text.Mathlib.Text.{starts_with}
use certman.Scheduler.Int.{parse_int, range, range_from}
use certman.Scheduler.Cron.{
  in_bounds, range_values, single_value, part_values, parts_values, stepped, field_values,
  parse_cron_field, Cron, sunday_as_zero, parse_fields, parse_cron_expr, words,
}

abbrev pub Within : ℕ → ℕ → List ℕ → Type 0
Within lo hi = All (λ v. (lo ≤ v) × (v ≤ hi))

range_from-Within :
    (fuel start lo hi step : ℕ) → lo ≤ start → Within lo hi (range_from fuel start (hi + 1) step)
unfolding range_from
range_from-Within zero start lo hi step h = tt
range_from-Within (suc fuel) start lo hi step h = elim (Bool-cases (ltb start (hi + 1))) [
  | inl e ↦ rw e ((h, ground arith), range_from-Within fuel (start + step) lo hi step (omega arith))
  | inr e ↦ rw e tt
]

all-Within : (lo hi : ℕ) (vs : List ℕ) → all (in_bounds lo hi) vs ≡ true → Within lo hi vs
all-Within lo hi [] h = tt
all-Within lo hi (v ∷ vs) h = ((ground arith, ground arith), all-Within lo hi vs (ground arith))

range_values-Within :
    (lo hi : ℕ) (a b : Option ℕ) (vs : List ℕ) → range_values lo hi a b ≡ ok vs → Within lo hi vs
unfolding range_values
range_values-Within lo hi none b vs h = absurd (ground arith)
range_values-Within lo hi (some a) none vs h = absurd (ground arith)
range_values-Within lo hi (some a) (some b) vs h = all-Within lo hi vs (ground arith)

single_value-Within :
    (lo hi : ℕ) (a : Option ℕ) (vs : List ℕ) → single_value lo hi a ≡ ok vs → Within lo hi vs
unfolding single_value
single_value-Within lo hi none vs h = absurd (ground arith)
single_value-Within lo hi (some a) vs h = all-Within lo hi vs (ground arith)

part_values-Within :
    (lo hi : ℕ) (part : String) (vs : List ℕ) → part_values lo hi part ≡ ok vs → Within lo hi vs
unfolding part_values
part_values-Within lo hi part vs h = elim (Option-cases (split_once "-" part)) [
  | inl e ↦ single_value-Within lo hi (parse_int part) vs (ground arith)
  | inr ((l, r), e) ↦ range_values-Within lo hi (parse_int l) (parse_int r) vs (ground arith)
]

parts_values-Within :
    (lo hi : ℕ) (parts : List String) (vs : List ℕ)
    → parts_values lo hi parts ≡ ok vs
    → Within lo hi vs
unfolding parts_values
parts_values-Within lo hi [] vs h = let e : [] ≡ vs = ground arith in rw (sym e) tt
parts_values-Within lo hi (p ∷ ps) vs h = elim (Result-cases (part_values lo hi (strip p))) [
  | inl (x, e) ↦ absurd (ground arith)
  | inr (v, e) ↦ elim (Result-cases (parts_values lo hi ps)) [
    | inl (x, f) ↦ absurd (ground arith)
    | inr (more, f) ↦
        let whole : vs ≡ v ++ more = ground arith in
        rw whole (
          All-append _ v more (part_values-Within lo hi (strip p) v e)
            (parts_values-Within lo hi ps more f))
  ]
]

stepped-Within :
    (lo hi : ℕ) (o : Option ℕ) (vs : List ℕ) → stepped lo hi o ≡ ok vs → Within lo hi vs
unfolding stepped range
stepped-Within lo hi none vs h = absurd (ground arith)
stepped-Within lo hi (some step) vs h =
    let e : vs ≡ range lo (hi + 1) step = ground arith in
    rw e (range_from-Within (hi + 1 - lo) lo lo hi step (omega arith))

-- The values of a field are within its bounds.
pub field-Within :
    (token : String) (lo hi : ℕ) (vs : List ℕ)
    → parse_cron_field token lo hi ≡ ok vs
    → Within lo hi vs
unfolding parse_cron_field field_values range
field-Within token lo hi vs h =
    let t = strip token in
    elim (Bool-cases (t == "*")) [
      | inl e ↦
          let whole : vs ≡ range lo (hi + 1) 1 = ground arith in
          rw whole (range_from-Within (hi + 1 - lo) lo lo hi 1 (omega arith))
      | inr e ↦ elim (Bool-cases (starts_with t "*/")) [
        | inl f ↦ stepped-Within lo hi (parse_int (slice t 2 (len t))) vs (ground arith)
        | inr f ↦ parts_values-Within lo hi (split_all "," t) vs (ground arith)
      ]
    ]

filter-Within : (vs : List ℕ) → Within 0 7 vs → Within 0 6 (filter (λ v. not (nat_beq v 7)) vs)
filter-Within [] h = tt
filter-Within (v ∷ vs) h = elim (Bool-cases (nat_beq v 7)) [
  | inl e ↦ rw e (filter-Within vs h.1)
  | inr e ↦ rw e ((omega arith, ground arith), filter-Within vs h.1)
]

no_seven : (vs : List ℕ) → Within 0 7 vs → any (nat_beq 7) vs ≡ false → Within 0 6 vs
no_seven [] w h = tt
no_seven (v ∷ vs) w h = ((omega arith, ground arith), no_seven vs w.1 (ground arith))

sunday-Within : (vs : List ℕ) → Within 0 7 vs → Within 0 6 (sunday_as_zero vs)
unfolding sunday_as_zero
sunday-Within vs h = elim (Bool-cases (any (nat_beq 7) vs)) [
  | inl e ↦ rw e ((omega arith, omega arith), filter-Within vs h)
  | inr e ↦ rw e (no_seven vs h e)
]

-- The sets of a parsed expression hold only minutes, hours, days, months and weekdays of the calendar.
abbrev pub IsCalendar : Cron → Type 0
IsCalendar c =
    Within 0 59 c.minute
    × Within 0 23 c.hour
    × Within 1 31 c.day
    × Within 1 12 c.month
    × Within 0 6 c.weekday

fields-IsCalendar : (parts : List String) (c : Cron) → parse_fields parts ≡ ok c → IsCalendar c
unfolding parse_fields
fields-IsCalendar (m ∷ h ∷ d ∷ mo ∷ w ∷ []) c e = elim (Result-cases (parse_cron_field m 0 59)) [
  | inl (x, f) ↦ absurd (ground arith)
  | inr (ms, f) ↦ elim (Result-cases (parse_cron_field h 0 23)) [
    | inl (x, g) ↦ absurd (ground arith)
    | inr (hs, g) ↦ elim (Result-cases (parse_cron_field d 1 31)) [
      | inl (x, i) ↦ absurd (ground arith)
      | inr (ds, i) ↦ elim (Result-cases (parse_cron_field mo 1 12)) [
        | inl (x, j) ↦ absurd (ground arith)
        | inr (mos, j) ↦ elim (Result-cases (parse_cron_field w 0 7)) [
          | inl (x, k) ↦ absurd (ground arith)
          | inr (ws, k) ↦
              let whole : c ≡ record {
                minute = ms;
                hour = hs;
                day = ds;
                month = mos;
                weekday = sunday_as_zero ws;
              } =
                ground arith in
              rw whole (
                field-Within m 0 59 ms f,
                field-Within h 0 23 hs g,
                field-Within d 1 31 ds i,
                field-Within mo 1 12 mos j,
                sunday-Within ws (field-Within w 0 7 ws k),
              )
        ]
      ]
    ]
  ]
]
fields-IsCalendar [] c e = absurd (ground arith)
fields-IsCalendar (a ∷ []) c e = absurd (ground arith)
fields-IsCalendar (a ∷ b ∷ []) c e = absurd (ground arith)
fields-IsCalendar (a ∷ b ∷ d ∷ []) c e = absurd (ground arith)
fields-IsCalendar (a ∷ b ∷ d ∷ f ∷ []) c e = absurd (ground arith)
fields-IsCalendar (a ∷ b ∷ d ∷ f ∷ g ∷ h ∷ rest) c e = absurd (ground arith)

-- An expression that parses gives sets of minutes 0 to 59, hours 0 to 23, days 1 to 31, months 1 to 12
-- and weekdays 0 to 6, a Sunday written as 7 included.
pub parse-IsCalendar : (expr : String) (c : Cron) → parse_cron_expr expr ≡ ok c → IsCalendar c
unfolding parse_cron_expr
parse-IsCalendar expr c e = fields-IsCalendar (words expr) c e

range_reaches :
    (k v fuel start stop step : ℕ)
    → stop ≤ start + fuel
    → 1 ≤ step
    → v ≡ start + k * step
    → v < stop
    → any (nat_beq v) (range_from fuel start stop step) ≡ true
unfolding range_from
range_reaches k v zero start stop step a b e h = absurd (grind arith)
range_reaches zero v (suc fuel) start stop step a b e h = ground arith
range_reaches (suc k) v (suc fuel) start stop step a b e h =
    let le : start ≤ v = grind arith in
    ground (arith, range_reaches k v fuel (start + step) stop step (omega arith) b (grind arith) h)

range_only :
    (v fuel start stop step : ℕ)
    → any (nat_beq v) (range_from fuel start stop step) ≡ true
    → (k : ℕ) × (v ≡ start + k * step) × (v < stop)
unfolding range_from
range_only v zero start stop step h = absurd (ground arith)
range_only v (suc fuel) start stop step h = elim (Bool-cases (ltb start stop)) [
  | inr e ↦ absurd (ground arith)
  | inl e ↦ elim (Bool-cases (nat_beq v start)) [
    | inl f ↦ (0, ground arith, ground arith)
    | inr f ↦
        let (k, g, l) = range_only v fuel (start + step) stop step (ground arith) in
        (suc k, grind arith, l)
  ]
]

not_star : (t : String) → starts_with t "*/" ≡ true → (t == "*") ≡ false
not_star t h = elim (Bool-cases (t == "*")) [
  | inr e ↦ e
  | inl e ↦
      let whole : t ≡ "*" = ground (arith, eq_iff t "*") in absurd (ground (arith, rw whole at h))
]

-- A field `*/n` with `n` at least 1 parses, and its values are those that start at the minimum, go up in
-- steps of `n`, and do not pass the maximum.
pub step_exact :
    (token : String) (lo hi n : ℕ)
    → starts_with (strip token) "*/" ≡ true
    → parse_int (slice (strip token) 2 (len (strip token))) ≡ some n
    → 1 ≤ n
    → (vs : List ℕ) × (parse_cron_field token lo hi ≡ ok vs)
      × ((v : ℕ) → any (nat_beq v) vs ≡ true → (k : ℕ) × (v ≡ lo + k * n) × (v ≤ hi))
      × ((k : ℕ) → lo + k * n ≤ hi → any (nat_beq (lo + k * n)) vs ≡ true)
unfolding parse_cron_field field_values stepped range
step_exact token lo hi n s p q =
    let t = strip token in
    (
      range lo (hi + 1) n,
      ground (arith, not_star t s),
      λ v h. (let (k, e, l) = range_only v (hi + 1 - lo) lo (hi + 1) n h in (k, e, omega arith)),
      λ k h.
          range_reaches k (lo + k * n) (hi + 1 - lo) lo (hi + 1) n (omega arith) q refl
            (omega arith),
    )
