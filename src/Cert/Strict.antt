-- ===== src/Cert/Strict.antt =====
-- Strict resolution never guesses, and the latest one takes a file that no other is newer than.
use certman.Base.{
  ℕ, ◌≤◌, String, ◌≡◌, refl, ◌∙◌, ◌⊎◌, inl, inr, Bool, true, false, Option, none, some, List, [],
  ◌∷◌, Memᴰ, All, if◌then◌else◌, truthy_opt, or_empty, ok, Bool-cases, Option-cases, All-mem, sym,
  ap, arith,
}
use certman.Config.Entry.{Entry}
use certman.Cert.Lineage.{
  Lineage, RenewalDir, latest_mode, strict_mode, is_older, latest, candidates, no_lineage,
  resolve_strict, resolve_latest, resolve_entry_cert_name,
}

-- The name is the one configured, or that of the only renewal file of the entry.
abbrev pub IsOnly : Entry → RenewalDir → String → Type 0
IsOnly e d name =
    (e.cert_name ≡ some name)
    ⊎ (((d.matches ≡ []) × ((t : ℕ) × (d.exact ≡ some t)) × (name ≡ e.primary_domain))
        ⊎ ((d.exact ≡ none) × ((l : Lineage) × (d.matches ≡ l ∷ []) × (name ≡ l.stem))))

strict-IsOnly :
    (e : Entry) (name : String) (exact : Option ℕ) (matches : List Lineage)
    → resolve_strict e true exact matches ≡ ok name
    → IsOnly e (record { exact = exact; matches = matches }) name
unfolding resolve_strict no_lineage
strict-IsOnly e name (some t) [] h = inr (inl (refl, (t, refl), ground arith))
strict-IsOnly e name (some t) (l ∷ ls) h = absurd (ground arith)
strict-IsOnly e name none [] h = absurd (ground arith)
strict-IsOnly e name none (l ∷ []) h = inr (inr (refl, (l, refl, ground arith)))
strict-IsOnly e name none (l ∷ m ∷ ls) h = absurd (ground arith)

configured :
    (o : Option String) (name : String) → truthy_opt o ≡ true → or_empty o ≡ name → o ≡ some name
configured none name t h = absurd (ground arith)
configured (some s) name t h = ground arith

-- With strict resolution and an existing lineage required, a name is returned only if it is the one
-- configured or that of the only renewal file of the entry: between several files it does not choose.
pub strict_sound :
    (e : Entry) (d : RenewalDir) (name : String)
    → resolve_entry_cert_name e d true strict_mode ≡ ok name
    → IsOnly e d name
unfolding resolve_entry_cert_name
strict_sound e d name h = elim (Bool-cases (truthy_opt e.cert_name)) [
  | inl t ↦ inl (configured e.cert_name name t (ground arith))
  | inr t ↦ strict-IsOnly e name d.exact d.matches (ground arith)
]

module _ (best l : Lineage) where
  abbrev pub better : Lineage
  better = if is_older best l then l else best

  better_le : (best.mtime ≤ better.mtime) × (l.mtime ≤ better.mtime)
  unfolding is_older
  better_le = elim (Bool-cases (is_older best l)) [
    | inl e ↦ rw (e, if◌then◌else◌) (ground arith, omega arith)
    | inr e ↦ rw (e, if◌then◌else◌) (omega arith, ground arith)
  ]

  better-mem : (better ≡ best) ⊎ (better ≡ l)
  better-mem = elim (Bool-cases (is_older best l)) [
    | inl e ↦ inr (rw (e, if◌then◌else◌) refl)
    | inr e ↦ inl (rw (e, if◌then◌else◌) refl)
  ]

newest :
    (best : Lineage) (ls : List Lineage)
    → (best.mtime ≤ (latest best ls).mtime) × All (λ l. l.mtime ≤ (latest best ls).mtime) ls
unfolding latest
newest best [] = (omega arith, tt)
newest best (l ∷ ls) =
    let (a, b) = better_le best l in
    let (c, rest) = newest (better best l) ls in (omega arith, (omega arith, rest))

latest-mem : (best : Lineage) (ls : List Lineage) → Memᴰ (latest best ls) (best ∷ ls)
unfolding latest
latest-mem best [] = Memᴰ.head refl
latest-mem best (l ∷ ls) = place (latest-mem (better best l) ls) (better-mem best l)
  where
    place :
        Memᴰ (latest (better best l) ls) (better best l ∷ ls)
        → (better best l ≡ best) ⊎ (better best l ≡ l)
        → Memᴰ (latest (better best l) ls) (best ∷ l ∷ ls)
    place (Memᴰ.head e) (inl f) = Memᴰ.head (e ∙ f)
    place (Memᴰ.head e) (inr f) = Memᴰ.tail (Memᴰ.head (e ∙ f))
    place (Memᴰ.tail m) _ = Memᴰ.tail (Memᴰ.tail m)

latest_candidate :
    (e : Entry) (require_existing : Bool) (name : String) (ls : List Lineage)
    → resolve_latest e require_existing ls ≡ ok name
    → ((ls ≡ []) × (require_existing ≡ false) × (name ≡ e.primary_domain))
      ⊎ ((l : Lineage) × Memᴰ l ls × All (λ k. k.mtime ≤ l.mtime) ls × (name ≡ l.stem))
unfolding resolve_latest no_lineage
latest_candidate e true name [] h = absurd (ground arith)
latest_candidate e false name [] h = inl (refl, refl, ground arith)
latest_candidate e r name (l ∷ ls) h = inr (latest l ls, latest-mem l ls, newest l ls, ground arith)

-- The renewal files of the entry: the one of the primary domain, and those named after it.
pub data IsFileOf (e : Entry) (d : RenewalDir) (l : Lineage) : Type 0 where
  exact_file : d.exact ≡ some l.mtime → l.stem ≡ e.primary_domain → IsFileOf e d l
  matching_file : Memᴰ l d.matches → IsFileOf e d l

module _ (e : Entry) (d : RenewalDir) where
  candidates_found :
      (t : ℕ)
      → d.exact ≡ some t
      → candidates e d ≡ record { stem = e.primary_domain; mtime = t } ∷ d.matches
  unfolding candidates
  candidates_found t h = rw h refl

  candidates_missing : d.exact ≡ none → candidates e d ≡ d.matches
  unfolding candidates
  candidates_missing h = rw h refl

  of_mem :
      (t : ℕ) (l : Lineage)
      → d.exact ≡ some t
      → Memᴰ l (record { stem = e.primary_domain; mtime = t } ∷ d.matches)
      → IsFileOf e d l
  of_mem t l h (Memᴰ.head q) =
      exact_file (h ∙ ap some (sym (ap (λ k. k.mtime) q))) (ap (λ k. k.stem) q)
  of_mem t l h (Memᴰ.tail m) = matching_file m

  candidate-IsFileOf : (l : Lineage) → Memᴰ l (candidates e d) → IsFileOf e d l
  candidate-IsFileOf l m = elim (Option-cases d.exact) [
    | inl h ↦ matching_file (rw (candidates_missing h) at m)
    | inr (t, h) ↦ of_mem t l h (rw (candidates_found t h) at m)
  ]

  exact-candidate :
      (l : Lineage) → d.exact ≡ some l.mtime → l.stem ≡ e.primary_domain → Memᴰ l (candidates e d)
  exact-candidate l h q =
      let same : l ≡ record { stem = e.primary_domain; mtime = l.mtime } =
        ap (λ (x : String). record { stem = x; mtime = l.mtime }) q in
      rw (candidates_found l.mtime h) (Memᴰ.head same)

  file-candidate : (l : Lineage) → IsFileOf e d l → Memᴰ l (candidates e d)
  file-candidate l (exact_file h q) = exact-candidate l h q
  file-candidate l (matching_file m) = elim (Option-cases d.exact) [
    | inl h ↦ rw (candidates_missing h) m
    | inr (t, h) ↦ rw (candidates_found t h) (Memᴰ.tail m)
  ]

  -- The name is that of a file of the entry that no other is newer than, or of no file.
  abbrev pub IsNewestFile : Bool → String → Type 0
  IsNewestFile require_existing name =
      (((l : Lineage) → ¬ IsFileOf e d l) × (require_existing ≡ false) × (name ≡ e.primary_domain))
      ⊎ ((l : Lineage) × IsFileOf e d l
          × ((k : Lineage) → IsFileOf e d k → k.mtime ≤ l.mtime)
          × (name ≡ l.stem))

  no_candidate : candidates e d ≡ [] → (l : Lineage) → ¬ IsFileOf e d l
  no_candidate h l f = elim (rw h at file-candidate l f) [ ]

  latest-IsNewestFile :
      (require_existing : Bool) (name : String)
      → resolve_latest e require_existing (candidates e d) ≡ ok name
      → IsNewestFile require_existing name
  latest-IsNewestFile r name h = elim (latest_candidate e r name (candidates e d) h) [
    | inl (none_there, q, n) ↦ inl (no_candidate none_there, q, n)
    | inr (l, m, newer, n) ↦ inr (
      l,
      candidate-IsFileOf l m,
      λ k f. All-mem (λ k. k.mtime ≤ l.mtime) (candidates e d) newer (file-candidate k f),
      n,
    )
  ]

-- With latest resolution a name that is returned is the one configured, or that of a renewal file of
-- the entry that no other is newer than, or, when there is no file and none is required, the primary
-- domain.
pub latest_sound :
    (e : Entry) (d : RenewalDir) (require_existing : Bool) (name : String)
    → resolve_entry_cert_name e d require_existing latest_mode ≡ ok name
    → (e.cert_name ≡ some name) ⊎ IsNewestFile e d require_existing name
unfolding resolve_entry_cert_name
latest_sound e d require_existing name h = elim (Bool-cases (truthy_opt e.cert_name)) [
  | inl t ↦ inl (configured e.cert_name name t (ground arith))
  | inr t ↦ inr (latest-IsNewestFile e d require_existing name (ground arith))
]
