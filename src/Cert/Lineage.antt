-- ===== src/Cert/Lineage.antt =====
-- `resolve_entry_cert_name`, for the renewal files that are on the disk.
use Prim.Native.Nat.{Ordering, lt}
use Prim.Native.String.{compare}
use certman.Base.{
  ℕ, String, ◌<>◌, Bool, true, false, Option, none, some, List, [], ◌∷◌, ◌&&◌, ◌||◌, ltb, nat_beq,
  if◌then◌else◌, truthy_opt, or_empty, Result, ok, err,
}
use certman.Config.Entry.{Entry}

pub data LineageError : Type 0 where
  value_error : LineageError

-- A renewal file: its name without `.conf`, and its st_mtime_ns.
pub record Lineage : Type 0 where
  pub stem : String
  pub mtime : ℕ

-- The mtime of the file of the primary domain if it is there, and the files named after it with a dash
-- and more, sorted.
pub record RenewalDir : Type 0 where
  pub exact : Option ℕ
  pub matches : List Lineage

abbrev pub is_less : Ordering → Bool
is_less lt = true
is_less _ = false

-- `(st_mtime_ns, name)` as a key
unfoldable pub is_older : Lineage → Lineage → Bool
is_older a b =
    ltb a.mtime b.mtime
    || (nat_beq a.mtime b.mtime && is_less (compare (a.stem <> ".conf") (b.stem <> ".conf")))

-- `max(candidates, key=...)`: the first of the greatest
unfoldable pub latest : Lineage → List Lineage → Lineage
unfolding is_older
latest best [] = best
latest best (l ∷ ls) = latest (if is_older best l then l else best) ls

unfoldable pub candidates : Entry → RenewalDir → List Lineage
candidates e d = elim d.exact [
  | none ↦ d.matches
  | some t ↦ record { stem = e.primary_domain; mtime = t } ∷ d.matches
]

pub data Mode : Type 0 where
  latest_mode strict_mode : Mode

-- the end of the function, when no file is there
unfoldable pub no_lineage : Entry → Bool → Result LineageError String
no_lineage e require_existing = if require_existing then err value_error else ok e.primary_domain

unfoldable pub resolve_strict : Entry → Bool → Option ℕ → List Lineage → Result LineageError String
unfolding no_lineage
resolve_strict e require_existing (some t) [] = ok e.primary_domain
resolve_strict e require_existing (some t) (l ∷ ls) = err value_error
resolve_strict e require_existing none [] = no_lineage e require_existing
resolve_strict e require_existing none (l ∷ []) = ok l.stem
resolve_strict e require_existing none (l ∷ m ∷ ls) = err value_error

unfoldable pub resolve_latest : Entry → Bool → List Lineage → Result LineageError String
unfolding no_lineage latest
resolve_latest e require_existing [] = no_lineage e require_existing
resolve_latest e require_existing (l ∷ ls) = ok (latest l ls).stem

unfoldable pub resolve_entry_cert_name :
    Entry → RenewalDir → Bool → Mode → Result LineageError String
unfolding resolve_strict resolve_latest candidates
resolve_entry_cert_name e d require_existing mode =
    if truthy_opt e.cert_name then ok (or_empty e.cert_name) else elim mode [
      | strict_mode ↦ resolve_strict e require_existing d.exact d.matches
      | latest_mode ↦ resolve_latest e require_existing (candidates e d)
    ]
