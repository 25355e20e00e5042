-- ===== src/Delivery/Acm/Laws.antt =====
-- An import replaces a certificate only if it is the entry's.
use certman.Base.{
  All, All-mono, any, String, ◌≡◌, refl, sym, ap, ◌∙◌, ◌⊎◌, inl, inr, Bool, true, false, Option,
  none, some, List, [], ◌∷◌, ◌==◌, ◌&&◌, if◌then◌else◌, Memᴰ, truthy_opt, or_empty, is_some_of,
  Result, ok, err, Result-cases, Bool-cases, arith, eq_iff,
}
use certman.Delivery.Acm.{
  Tags, Certificate, Import, Aws, parse_acm_certificate_arn, has_tags, is_imported_for, add_arn,
  tags_match, candidates, validate_described, tag_value,
}

pub no_error :
    {A : Type 0} {x : String} {a : A} {out : Result String A} → out ≡ err x → out ≡ ok a → ⊥
no_error e h = ground arith

same_list : {A : Type 0} {a b : A} → ◌≡◌ {A = Result String A} (ok a) (ok b) → a ≡ b
same_list h = ground arith

module _ (aws : Aws) (history : List Import) (region primary_domain : String)
    (required : Tags) where
  -- The certificate under the ARN has all the required tags.
  abbrev pub IsTagged : String → Type 0
  IsTagged arn =
      (current : Tags) × (aws.tags_of history region arn ≡ ok current)
      × (has_tags required current ≡ true)

  -- An imported certificate for the domain, under the ARN, with the tags.
  abbrev pub IsOwn : String → Certificate → Type 0
  IsOwn arn c = (c.domain_name ≡ some primary_domain) × (c.kind ≡ some "IMPORTED") × IsTagged arn

  tagged :
      (arn : String)
      → tags_match aws history region primary_domain required arn ≡ ok true
      → IsTagged arn
  unfolding tags_match
  tagged arn h = elim (Result-cases (aws.tags_of history region arn)) [
    | inl (x, e) ↦ absurd (ground arith)
    | inr (current, e) ↦ (current, e, ground arith)
  ]

  some_of : (o : Option String) (s : String) → is_some_of o s ≡ true → o ≡ some s
  some_of none s h = absurd (ground arith)
  some_of (some t) s h = ap (λ u. some u) (ground (arith, eq_iff t s))

  pub described-IsOwn :
      (arn : String) (o : Option String) (c : Certificate)
      → validate_described aws history region primary_domain required arn c ≡ ok o
      → (o ≡ some arn) × IsOwn arn c
  unfolding validate_described
  described-IsOwn arn o c h =
      elim (Result-cases (tags_match aws history region primary_domain required arn)) [
        | inl (x, e) ↦ absurd (ground arith)
        | inr (false, e) ↦ absurd (ground arith)
        | inr (true, e) ↦ (
          ground arith,
          (
            some_of c.domain_name primary_domain (ground arith),
            some_of c.kind "IMPORTED" (ground arith),
            tagged arn e,
          ),
        )
      ]

  -- A listed certificate that is the entry's, under the ARN.
  abbrev pub IsListed : List Certificate → String → Type 0
  IsListed cs arn = (c : Certificate) × Memᴰ c cs × (c.arn ≡ some arn) × IsOwn arn c

  pub present : (o : Option String) → truthy_opt o ≡ true → o ≡ some (or_empty o)
  present none h = absurd (ground arith)
  present (some s) h = refl

  module _ (c : Certificate) (cs : List Certificate) where
    abbrev arn : String
    arn = or_empty c.arn

    IsListed-later : (arns : List String) → All (IsListed cs) arns → All (IsListed (c ∷ cs)) arns
    IsListed-later arns h =
        All-mono (IsListed cs) (IsListed (c ∷ cs)) arns
          (λ a (d, m, e, own). (d, Memᴰ.tail m, e, own)) h

    added :
        (arns : List String)
        → IsListed (c ∷ cs) arn
        → All (IsListed (c ∷ cs)) arns
        → All (IsListed (c ∷ cs)) (add_arn arn arns)
    added arns h hs = elim (Bool-cases (any (λ a. a == arn) arns)) [
      | inl e ↦ rw (e, if◌then◌else◌) hs
      | inr e ↦ rw (e, if◌then◌else◌) (h, hs)
    ]

    skip_step :
        (is_imported_for primary_domain c && truthy_opt c.arn) ≡ false
        → candidates aws history region primary_domain required (c ∷ cs)
          ≡ candidates aws history region primary_domain required cs
    unfolding candidates
    skip_step h = ground arith

    take_step :
        (b : Bool) (arns : List String)
        → (is_imported_for primary_domain c && truthy_opt c.arn) ≡ true
        → tags_match aws history region primary_domain required arn ≡ ok b
        → candidates aws history region primary_domain required cs ≡ ok arns
        → candidates aws history region primary_domain required (c ∷ cs)
          ≡ ok (if b then add_arn arn arns else arns)
    unfolding candidates
    take_step b arns h t r = ground arith

    untagged_step :
        (x : String)
        → (is_imported_for primary_domain c && truthy_opt c.arn) ≡ true
        → tags_match aws history region primary_domain required arn ≡ err x
        → candidates aws history region primary_domain required (c ∷ cs) ≡ err x
    unfolding candidates
    untagged_step x h t = ground arith

    failed_step :
        (b : Bool) (x : String)
        → (is_imported_for primary_domain c && truthy_opt c.arn) ≡ true
        → tags_match aws history region primary_domain required arn ≡ ok b
        → candidates aws history region primary_domain required cs ≡ err x
        → candidates aws history region primary_domain required (c ∷ cs) ≡ err x
    unfolding candidates
    failed_step b x h t r = ground arith

    own-IsListed :
        (is_imported_for primary_domain c && truthy_opt c.arn) ≡ true
        → tags_match aws history region primary_domain required arn ≡ ok true
        → IsListed (c ∷ cs) arn
    own-IsListed h t = (
      c,
      Memᴰ.head refl,
      present c.arn (ground arith),
      (
        some_of c.domain_name primary_domain (ground arith),
        some_of c.kind "IMPORTED" (ground arith),
        tagged arn t,
      ),
    )

  pub candidates-IsListed :
      (cs : List Certificate) (arns : List String)
      → candidates aws history region primary_domain required cs ≡ ok arns
      → All (IsListed cs) arns
  unfolding candidates
  candidates-IsListed [] [] h = tt
  candidates-IsListed [] (a ∷ arns) h = absurd (ground arith)
  candidates-IsListed (c ∷ cs) arns h =
      elim (Bool-cases (is_imported_for primary_domain c && truthy_opt c.arn)) [
        | inr n ↦
            IsListed-later c cs arns (candidates-IsListed cs arns (sym (skip_step c cs n) ∙ h))
        | inl y ↦
            elim (Result-cases
              (tags_match aws history region primary_domain required (or_empty c.arn))) [
                | inl (x, t) ↦ absurd (no_error (untagged_step c cs x y t) h)
                | inr (b, t) ↦
                    elim (Result-cases (candidates aws history region primary_domain required cs)) [
                      | inl (x, r) ↦ absurd (no_error (failed_step c cs b x y t r) h)
                      | inr (rest, r) ↦
                          let more = IsListed-later c cs rest (candidates-IsListed cs rest r) in
                          let same = sym h ∙ take_step c cs b rest y t r in
                          rw (same_list same) (elim (Bool-cases b) [
                            | inl e ↦
                                rw (e, if◌then◌else◌)
                                  (added c cs rest (own-IsListed c cs y (rw e at t)) more)
                            | inr e ↦ rw (e, if◌then◌else◌) more
                          ])
                    ]
              ]
      ]

  -- The certificate that an import replaces: the one configured, in the region and the account, or one
  -- that the region lists; either way imported, for the domain and with the tags.
  abbrev pub IsReplaced : Tags → String → String → Type 0
  IsReplaced explicit account arn =
      ((tag_value region explicit ≡ some arn)
        × (parse_acm_certificate_arn arn ≡ ok (region, account))
        × ((c : Certificate) × (aws.described history region arn ≡ ok c) × IsOwn arn c))
      ⊎ ((cs : List Certificate) × (aws.listed history region ≡ ok cs) × IsListed cs arn)
