-- ===== src/Delivery/Files/Laws.antt =====
-- What a filesystem delivery writes, when it succeeds and when a path cannot be written.
use certman.Base.{
  String, ◌≡◌, refl, ◌⊎◌, inl, inr, none, some, List, [], ◌∷◌, ◌++◌, map, All, Result, ok, err,
  Option-cases, arith, append_assoc, append-nil, ap, sym, ◌∙◌,
}
use certman.Delivery.Files.{Files, Site, Machine, write_text, deliver_filesystem_bundle}

module _ (m : Machine) (target_dir : String) where
  -- The files, each with its path in the target directory.
  abbrev pub located : Files → List (String × String)
  located = map (λ f. (m.join_path target_dir f.0, f.1))

  abbrev pub paths : Files → List String
  paths = map (λ f. m.join_path target_dir f.0)

  abbrev pub IsWritable : Files → Type 0
  IsWritable = All (λ f. m.denied (m.join_path target_dir f.0) ≡ none)

  abbrev pub wrote : Site → List (String × String) → Site
  wrote s more = record s { written = s.written ++ more }

  -- All files were written, in order, and their paths are returned.
  abbrev pub IsWhole : Files → Site → Result String (List String) × Site → Type 0
  IsWhole files s out = IsWritable files × (out ≡ (ok (paths files), wrote s (located files)))

  -- The files before one that cannot be written were written, and those from it on were not.
  abbrev pub IsPart : Files → Site → Result String (List String) × Site → Type 0
  IsPart files s out =
      (before : Files) × (f : String × String) × (after : Files) × (text : String) × (files
        ≡ before ++ f ∷ after)
      × IsWritable before
      × (m.denied (m.join_path target_dir f.0) ≡ some text)
      × (out ≡ (err text, wrote s (located before)))

  unchanged : {A : Type 0} (a : A) (s : Site) → ◌≡◌ {A = A × Site} (a, s) (a, wrote s [])
  unchanged a s = ap (λ w. (a, record s { written = w })) (sym (append-nil s.written))

  refused_first :
      (f : String × String) (files : Files) (s : Site) (text : String)
      → m.denied (m.join_path target_dir f.0) ≡ some text
      → deliver_filesystem_bundle m (f ∷ files) target_dir s ≡ (err text, s)
  unfolding deliver_filesystem_bundle write_text
  refused_first f files s text h = ground arith

  module _ (f : String × String) (files : Files) (s : Site)
      (h : m.denied (m.join_path target_dir f.0) ≡ none) where
    abbrev path : String
    path = m.join_path target_dir f.0

    abbrev first : Site
    first = wrote s ((path, f.1) ∷ [])

    ok_rest :
        (ps : List String) (s' : Site)
        → deliver_filesystem_bundle m files target_dir first ≡ (ok ps, s')
        → deliver_filesystem_bundle m (f ∷ files) target_dir s ≡ (ok (path ∷ ps), s')
    unfolding deliver_filesystem_bundle write_text
    ok_rest ps s' e = ground arith

    err_rest :
        (text : String) (s' : Site)
        → deliver_filesystem_bundle m files target_dir first ≡ (err text, s')
        → deliver_filesystem_bundle m (f ∷ files) target_dir s ≡ (err text, s')
    unfolding deliver_filesystem_bundle write_text
    err_rest text s' e = ground arith

    one_more : (more : List (String × String)) → wrote first more ≡ wrote s ((path, f.1) ∷ more)
    one_more more =
        ap (λ w. record s { written = w }) (append_assoc s.written ((path, f.1) ∷ []) more)

    IsWhole-rest :
        IsWhole files first (deliver_filesystem_bundle m files target_dir first)
        → IsWhole (f ∷ files) s (deliver_filesystem_bundle m (f ∷ files) target_dir s)
    IsWhole-rest (w, e) = (
      (h, w),
      ok_rest (paths files) (wrote first (located files)) e
          ∙ ap (λ t. (ok (path ∷ paths files), t)) (one_more (located files)),
    )

    IsPart-rest :
        IsPart files first (deliver_filesystem_bundle m files target_dir first)
        → IsPart (f ∷ files) s (deliver_filesystem_bundle m (f ∷ files) target_dir s)
    IsPart-rest (before, g, after, text, q, w, d, e) = (
      f ∷ before,
      g,
      after,
      text,
      ap (λ l. f ∷ l) q,
      (h, w),
      d,
      err_rest text (wrote first (located before)) e
          ∙ ap (λ t. (err text, t)) (one_more (located before)),
    )

  -- A delivery either writes all files, in order, and returns their paths, or raises the error of the
  -- first file that cannot be written, after those before it and no other were written.
  pub deliver_filesystem_lem :
      (files : Files) (s : Site)
      → IsWhole files s (deliver_filesystem_bundle m files target_dir s)
        ⊎ IsPart files s (deliver_filesystem_bundle m files target_dir s)
  unfolding deliver_filesystem_bundle
  deliver_filesystem_lem [] s = inl (tt, unchanged (ok []) s)
  deliver_filesystem_lem (f ∷ files) s =
      elim (Option-cases (m.denied (m.join_path target_dir f.0))) [
        | inr (text, h) ↦
            rw (refused_first f files s text h)
              (inr ([], f, files, text, refl, tt, h, unchanged (err text) s))
        | inl h ↦ elim (deliver_filesystem_lem files (first f files s h)) [
          | inl w ↦ inl (IsWhole-rest f files s h w)
          | inr p ↦ inr (IsPart-rest f files s h p)
        ]
      ]
