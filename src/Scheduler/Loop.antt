-- ===== src/Scheduler/Loop.antt =====
-- The loop of the cron mode of `run`: at which of the moments it reads does it run a scan.
use certman.Base.{
  String, ◌≡◌, refl, Bool, true, false, Option, none, some, List, [], ◌∷◌, ◌⊎◌, inl, inr, Memᴰ,
  Result, ok, err, ◌&&◌, not, nat_beq, if◌then◌else◌, Result-cases, Bool-cases, arith, ap, ◌∙◌,
}
use certman.Scheduler.Cron.{CronError, Cron, Moment, is_match, parse_cron_expr, matches_cron}

-- `now.strftime("%Y-%m-%dT%H:%M")`: equal texts are equal years, months, days, hours and minutes.
unfoldable pub same_key : Moment → Moment → Bool
same_key a b =
    nat_beq a.year b.year
    && nat_beq a.month b.month
    && nat_beq a.day b.day
    && nat_beq a.hour b.hour
    && nat_beq a.minute b.minute

unfoldable pub is_new_key : Option Moment → Moment → Bool
unfolding same_key
is_new_key none now = true
is_new_key (some last) now = not (same_key now last)

-- Whether a round runs a scan: the expression is only parsed when the minute is a new one.
unfoldable pub triggers : String → Option Moment → Moment → Result CronError Bool
unfolding is_new_key
triggers expr last now = if is_new_key last now then matches_cron expr now else ok false

-- The moments of the scans, up to a ValueError, for the moments that the rounds read; `last` is the
-- moment of the last scan.
unfoldable pub cron_loop : String → Option Moment → List Moment → List Moment
unfolding triggers
cron_loop expr last [] = []
cron_loop expr last (now ∷ later) = elim (triggers expr last now) [
  | err e ↦ []
  | ok b ↦ elim b [
    | true ↦ now ∷ cron_loop expr (some now) later
    | false ↦ cron_loop expr last later
  ]
]

-- Each moment differs from the one before it in its minute.
abbrev pub IsSpaced : Option Moment → List Moment → Type 0
IsSpaced last [] = Unit
IsSpaced last (m ∷ ms) = (is_new_key last m ≡ true) × IsSpaced (some m) ms

trigger_sound :
    (expr : String) (last : Option Moment) (now : Moment)
    → triggers expr last now ≡ ok true
    → (is_new_key last now ≡ true) × (matches_cron expr now ≡ ok true)
unfolding triggers
trigger_sound expr last now h = elim (Bool-cases (is_new_key last now)) [
  | inl e ↦ (e, ground arith)
  | inr e ↦ absurd (ground arith)
]

head_or_tail :
    (expr : String) (now : Moment) (rest : List Moment)
    → matches_cron expr now ≡ ok true
    → ((m : Moment) → Memᴰ m rest → matches_cron expr m ≡ ok true)
    → (m : Moment) → Memᴰ m (now ∷ rest)
    → matches_cron expr m ≡ ok true
head_or_tail expr now rest h f m (Memᴰ.head e) = rw e h
head_or_tail expr now rest h f m (Memᴰ.tail i) = f m i

module _ (expr : String) (last : Option Moment) (now : Moment) (later : List Moment) where
  stops : (e : CronError) → triggers expr last now ≡ err e → cron_loop expr last (now ∷ later) ≡ []
  unfolding cron_loop
  stops e h = ground arith

  waits :
      triggers expr last now ≡ ok false
      → cron_loop expr last (now ∷ later) ≡ cron_loop expr last later
  unfolding cron_loop
  waits h = ground arith

  fires :
      triggers expr last now ≡ ok true
      → cron_loop expr last (now ∷ later) ≡ now ∷ cron_loop expr (some now) later
  unfolding cron_loop
  fires h = ground arith

nothing :
    (expr : String) (last : Option Moment)
    → IsSpaced last (cron_loop expr last [])
      × ((m : Moment) → Memᴰ m (cron_loop expr last []) → matches_cron expr m ≡ ok true)
unfolding cron_loop
nothing expr last = (tt, λ m i. elim i [ ])

-- The scans follow each other in different minutes, and each is in a minute that the expression matches.
pub loop_sound :
    (expr : String) (last : Option Moment) (moments : List Moment)
    → IsSpaced last (cron_loop expr last moments)
      × ((m : Moment) → Memᴰ m (cron_loop expr last moments) → matches_cron expr m ≡ ok true)
loop_sound expr last [] = nothing expr last
loop_sound expr last (now ∷ later) = elim (Result-cases (triggers expr last now)) [
  | inl (x, e) ↦ rw (stops expr last now later x e) (tt, λ m i. elim i [ ])
  | inr (false, e) ↦ rw (waits expr last now later e) (loop_sound expr last later)
  | inr (true, e) ↦
      let (spaced, sound) = loop_sound expr (some now) later in
      let (new, match) = trigger_sound expr last now e in
      rw (fires expr last now later e)
        ((new, spaced), λ m i. head_or_tail expr now _ match sound m i)
]

same_key_refl : (m : Moment) → same_key m m ≡ true
unfolding same_key
same_key_refl m = ground arith

-- `m` is in the minute of a scan, or of the one before the loop.
abbrev pub IsCovered : Option Moment → Moment → List Moment → Type 0
IsCovered last m scans =
    (is_new_key last m ≡ false) ⊎ ((n : Moment) × Memᴰ n scans × (same_key m n ≡ true))

IsCovered-after :
    (last : Option Moment) (now m : Moment) (rest : List Moment)
    → IsCovered (some now) m rest
    → IsCovered last m (now ∷ rest)
unfolding is_new_key
IsCovered-after last now m rest (inl e) = inr (now, Memᴰ.head refl, ground arith)
IsCovered-after last now m rest (inr (n, i, e)) = inr (n, Memᴰ.tail i, e)

trigger_new :
    (expr : String) (cron : Cron) (last : Option Moment) (now : Moment)
    → parse_cron_expr expr ≡ ok cron
    → is_new_key last now ≡ true
    → triggers expr last now ≡ ok (is_match now cron)
unfolding triggers matches_cron
trigger_new expr cron last now p f = ground arith

trigger_old :
    (expr : String) (last : Option Moment) (now : Moment)
    → is_new_key last now ≡ false
    → triggers expr last now ≡ ok false
unfolding triggers
trigger_old expr last now f = ground arith

-- No minute is missed: when the expression parses, each moment read that matches is in the minute of
-- a scan, or of the scan before the loop.
pub loop_complete :
    (expr : String) (cron : Cron) (last : Option Moment) (moments : List Moment) (m : Moment)
    → parse_cron_expr expr ≡ ok cron
    → Memᴰ m moments
    → is_match m cron ≡ true
    → IsCovered last m (cron_loop expr last moments)
loop_complete expr cron last [] m p i h = elim i [ ]
loop_complete expr cron last (now ∷ later) m p (Memᴰ.head e) h =
    elim (Bool-cases (is_new_key last m)) [
      | inr f ↦ inl f
      | inl f ↦
          let fresh : is_new_key last now ≡ true = rw (← e) f in
          let good : is_match now cron ≡ true = rw (← e) h in
          let fired =
            fires expr last now later (trigger_new expr cron last now p fresh ∙ ap ok good) in
          rw fired (inr (now, Memᴰ.head refl, rw e (same_key_refl now)))
    ]
loop_complete expr cron last (now ∷ later) m p (Memᴰ.tail i) h =
    elim (Bool-cases (is_new_key last now)) [
      | inr f ↦
          rw (waits expr last now later (trigger_old expr last now f))
            (loop_complete expr cron last later m p i h)
      | inl f ↦
          let step = trigger_new expr cron last now p f in
          elim (Bool-cases (is_match now cron)) [
            | inl g ↦ rw (fires expr last now later (step ∙ ap ok g)) (
                IsCovered-after last now m (cron_loop expr (some now) later)
                  (loop_complete expr cron (some now) later m p i h))
            | inr g ↦
                rw (waits expr last now later (step ∙ ap ok g))
                  (loop_complete expr cron last later m p i h)
          ]
    ]
