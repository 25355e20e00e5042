-- ===== src/Delivery/Acm/Imports.antt =====
-- The imports of a delivery to AWS ACM, region by region.
use certman.Base.{
  String, ◌≡◌, refl, sym, ap, ◌∙◌, ◌⊎◌, inl, inr, true, false, Option, none, some, List, [], ◌∷◌,
  ◌++◌, ◌==◌, if◌then◌else◌, Each, truthy_opt, or_empty, Result, ok, err, Result-cases, Exec-cases,
  Bool-cases, clash, append_assoc, append-nil, arith, eq_iff,
}
use certman.Delivery.Acm.{
  Tags, Certificate, Import, Aws, parse_acm_certificate_arn, candidates, only,
  find_existing_imported_cert_arn, validate_explicit_imported_certificate, existing_arn, tag_value,
  next_import, import_region, import_regions,
}
use certman.Delivery.Acm.Laws.{
  IsOwn, IsListed, IsReplaced, candidates-IsListed, described-IsOwn, present,
}

module _ (aws : Aws) (primary_domain : String) (required : Tags) where
  module _ (history : List Import) (region : String) where
    only_one :
        (arns : List String) (arn : String)
        → only aws history region primary_domain required arns ≡ ok (some arn)
        → arns ≡ arn ∷ []
    only_one [] arn h = absurd (ground arith)
    only_one (a ∷ []) arn h = ground arith
    only_one (a ∷ b ∷ arns) arn h = absurd (ground arith)

    found_listed :
        (arn : String)
        → find_existing_imported_cert_arn aws history region primary_domain required ≡ ok (some arn)
        → (cs : List Certificate) × (aws.listed history region ≡ ok cs)
          × IsListed aws history region primary_domain required cs arn
    unfolding find_existing_imported_cert_arn
    found_listed arn h = elim (Result-cases (aws.listed history region)) [
      | inl (x, e) ↦ absurd (ground arith)
      | inr (cs, e) ↦
          elim (Result-cases (candidates aws history region primary_domain required cs)) [
            | inl (x, f) ↦ absurd (ground arith)
            | inr (arns, f) ↦
                let one : arns ≡ arn ∷ [] = only_one arns arn (ground arith) in
                (
                  cs,
                  e,
                  (rw one at
                      (candidates-IsListed aws history region primary_domain required cs arns f)).0,
                )
          ]
    ]

    validated :
        (account arn : String) (o : Option String)
        → validate_explicit_imported_certificate aws history region primary_domain required account
            arn
          ≡ ok o
        → (o ≡ some arn)
          × (parse_acm_certificate_arn arn ≡ ok (region, account))
          × ((c : Certificate) × (aws.described history region arn ≡ ok c)
              × IsOwn aws history region primary_domain required arn c)
    unfolding validate_explicit_imported_certificate
    validated account arn o h = elim (Result-cases (parse_acm_certificate_arn arn)) [
      | inl (x, e) ↦ absurd (ground arith)
      | inr ((r, a), e) ↦ elim (Bool-cases (r == region)) [
        | inr n ↦ absurd (ground arith)
        | inl y ↦ elim (Bool-cases (a == account)) [
          | inr n ↦ absurd (ground arith)
          | inl z ↦ elim (Result-cases (aws.described history region arn)) [
            | inl (x, d) ↦ absurd (ground arith)
            | inr (c, d) ↦
                let (s, own) =
                  described-IsOwn aws history region primary_domain required arn o c
                    (ground arith) in
                let same_region : r ≡ region = ground (arith, eq_iff r region) in
                let same_account : a ≡ account = ground (arith, eq_iff a account) in
                (
                  s,
                  e
                      ∙ ap (λ p. ok p)
                          (ap (λ q. (q, a)) same_region ∙ ap (λ q. (region, q)) same_account),
                  (c, d, own),
                )
          ]
        ]
      ]
    ]

    explicit_step :
        (explicit : Tags) (account : String)
        → truthy_opt (tag_value region explicit) ≡ true
        → existing_arn aws history region primary_domain required explicit account
          ≡ validate_explicit_imported_certificate aws history region primary_domain required
              account
              (or_empty (tag_value region explicit))
    unfolding existing_arn
    explicit_step explicit account h = ground arith

    search_step :
        (explicit : Tags) (account : String)
        → truthy_opt (tag_value region explicit) ≡ false
        → existing_arn aws history region primary_domain required explicit account
          ≡ find_existing_imported_cert_arn aws history region primary_domain required
    unfolding existing_arn
    search_step explicit account h = ground arith

    existing-IsReplaced :
        (explicit : Tags) (account arn : String)
        → existing_arn aws history region primary_domain required explicit account ≡ ok (some arn)
        → IsReplaced aws history region primary_domain required explicit account arn
    existing-IsReplaced explicit account arn h =
        elim (Bool-cases (truthy_opt (tag_value region explicit))) [
          | inr n ↦ inr (found_listed arn (sym (search_step explicit account n) ∙ h))
          | inl y ↦
              let a = or_empty (tag_value region explicit) in
              let (s, p, c) =
                validated account a (some arn) (sym (explicit_step explicit account y) ∙ h) in
              let same : a ≡ arn = ground arith in
              inl (
                present aws history region primary_domain required (tag_value region explicit) y
                    ∙ ap (λ t. some t) same,
                rw same at p,
                rw same at c,
              )
        ]

  module _ (explicit : Tags) (account body key : String) (chain : Option String) where
    -- The import is for the region; it makes a new certificate with the required tags, or replaces one
    -- that is the entry's.
    abbrev pub IsImport : String → Import → Type 0
    IsImport region i =
        (i.region ≡ region)
        × (i.body ≡ body)
        × (i.key ≡ key)
        × (((i.certificate_arn ≡ none) × (i.new_tags ≡ required))
            ⊎ ((history : List Import) × (arn : String) × (i.certificate_arn ≡ some arn)
                × IsReplaced aws history region primary_domain required explicit account arn))

    made :
        (history : List Import) (region : String) (o : Option String)
        → existing_arn aws history region primary_domain required explicit account ≡ ok o
        → IsImport region (
            next_import aws primary_domain required explicit account body key chain history region
              o)
    made history region none h = (refl, refl, refl, inl (refl, refl))
    made history region (some arn) h = elim (Bool-cases (truthy_opt (some arn))) [
      | inl y ↦ (
        refl,
        refl,
        refl,
        inr (
          history,
          arn,
          rw (y, if◌then◌else◌) refl,
          existing-IsReplaced history region explicit account arn h,
        ),
      )
      | inr n ↦ (refl, refl, refl, inl (rw (n, if◌then◌else◌) refl, rw (n, if◌then◌else◌) refl))
    ]

    abbrev run : String → List Import → Result String String × List Import
    run region history =
        import_region aws primary_domain required explicit account body key chain region history

    region_sound :
        (region : String) (history after : List Import) (arn : String)
        → run region history ≡ (ok arn, after)
        → (i : Import) × IsImport region i × (after ≡ history ++ i ∷ [])
    unfolding import_region
    region_sound region history after arn h =
        elim (Result-cases
          (existing_arn aws history region primary_domain required explicit account)) [
            | inl (x, e) ↦ absurd (ground arith)
            | inr (o, e) ↦ (
              next_import aws primary_domain required explicit account body key chain history region
                  o,
              made history region o e,
              ground arith,
            )
          ]

    abbrev loop : List String → List Import → Result String Tags × List Import
    loop regions history =
        import_regions aws primary_domain required explicit account body key chain regions history

    module _ (region : String) (regions : List String) (history after : List Import) where
      loop_stops :
          (x : String)
          → run region history ≡ (err x, after)
          → loop (region ∷ regions) history ≡ (err x, after)
      unfolding import_regions
      loop_stops x h = ground arith

      loop_fails :
          (arn x : String) (last : List Import)
          → run region history ≡ (ok arn, after)
          → loop regions after ≡ (err x, last)
          → loop (region ∷ regions) history ≡ (err x, last)
      unfolding import_regions
      loop_fails arn x last h k = ground arith

      loop_more :
          (arn : String) (rest : Tags) (last : List Import)
          → run region history ≡ (ok arn, after)
          → loop regions after ≡ (ok rest, last)
          → loop (region ∷ regions) history ≡ (ok ((region, arn) ∷ rest), last)
      unfolding import_regions
      loop_more arn rest last h k = ground arith

    loop_ends :
        (history last : List Import) (arns : Tags)
        → loop [] history ≡ (ok arns, last)
        → last ≡ history
    unfolding import_regions
    loop_ends history last arns h = ground arith

    -- A delivery whose imports all succeed has made one import for each region, in order. An import
    -- makes a new certificate with the required tags, or replaces an imported certificate for the
    -- domain with these tags: the one configured, if its ARN is of the region and of the account, or
    -- else one that the region lists.
    pub import_regions_sound :
        (regions : List String) (history last : List Import) (arns : Tags)
        → loop regions history ≡ (ok arns, last)
        → (is : List Import) × Each IsImport regions is × (last ≡ history ++ is)
    import_regions_sound [] history last arns h =
        ([], tt, loop_ends history last arns h ∙ sym (append-nil history))
    import_regions_sound (region ∷ regions) history last arns h =
        elim (Exec-cases (run region history)) [
          | inl (x, after, e) ↦ absurd (clash (loop_stops region regions history after x e) h)
          | inr (arn, after, e) ↦ elim (Exec-cases (loop regions after)) [
            | inl (x, end, f) ↦
                absurd (clash (loop_fails region regions history after arn x end e f) h)
            | inr (rest, end, f) ↦
                let (i, sound, q) = region_sound region history after arn e in
                let (is, each, r) = import_regions_sound regions after end rest f in
                let state : last ≡ end =
                  ap (λ o. o.1) (sym h ∙ loop_more region regions history after arn rest end e f) in
                (
                  i ∷ is,
                  (sound, each),
                  state ∙ r ∙ ap (λ l. l ++ is) q ∙ append_assoc history (i ∷ []) is,
                )
          ]
        ]
