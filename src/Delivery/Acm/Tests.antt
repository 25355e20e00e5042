-- ===== src/Delivery/Acm/Tests.antt =====
-- Imports into two regions, one of which has the certificate already, and the theorem there.
use certman.Base.{
  String, ◌<>◌, ◌≡◌, refl, none, some, List, [], ◌∷◌, ◌++◌, ◌==◌, if◌then◌else◌, Each, strip,
  split_once, ok, err,
}
use certman.Delivery.Acm.{
  existing_arn, update_tags, Tags, Certificate, Import, Aws, no_arn, one_arn, base_tags,
  parse_acm_certificate_arn, normalize_explicit_certificate_arns, import_bundle, import_regions,
}
use certman.Delivery.Acm.Imports.{IsImport, import_regions_sound}

abbrev old_arn : String
old_arn = "arn:aws:acm:eu-west-1:123456789012:certificate/old"

abbrev tags : Tags
tags = base_tags "web" "a.org"

abbrev listed : Certificate
listed = record { arn = some old_arn; domain_name = some "a.org"; kind = some "IMPORTED" }

abbrev aws : Aws
aws = record {
  listed = λ history region. ok (if region == "eu-west-1" then listed ∷ [] else []);
  described = λ history region arn. ok listed;
  tags_of = λ history region arn. ok (("team", "x") ∷ tags);
  imported = λ history i. ok (i.region <> "-arn");
  account = λ region. ok "123456789012";
}

parses :
    (parse_acm_certificate_arn old_arn ≡ ok ("eu-west-1", "123456789012"))
    × (parse_acm_certificate_arn "arn:aws:acm:eu-west-1:12345678901x:certificate/old"
        ≡ err "invalid ACM certificate ARN")
    × (parse_acm_certificate_arn "arn:aws:acm:eu-west-1:123456789012:certificate/"
        ≡ err "invalid ACM certificate ARN")
unfolding parse_acm_certificate_arn split_once
parses = (refl, refl, refl)

other_region :
    normalize_explicit_certificate_arns (one_arn (old_arn <> " ")) ("us-east-1" ∷ [])
    ≡ err "explicit ACM certificate ARN region=eu-west-1 does not match target region=us-east-1"
unfolding normalize_explicit_certificate_arns split_once strip parse_acm_certificate_arn
other_region = refl

abbrev replaced : Import
replaced = record {
  region = "eu-west-1";
  body = "CERT";
  chain = none;
  key = "KEY";
  certificate_arn = some old_arn;
  new_tags = [];
}

abbrev created : Import
created = record {
  region = "us-east-1";
  body = "CERT";
  chain = none;
  key = "KEY";
  certificate_arn = none;
  new_tags = tags;
}

abbrev arns : Tags
arns = ("eu-west-1", "eu-west-1-arn") ∷ ("us-east-1", "us-east-1-arn") ∷ []

two_regions :
    import_regions aws "a.org" tags [] "" "CERT" "KEY" none ("eu-west-1" ∷ "us-east-1" ∷ []) []
    ≡ (ok arns, replaced ∷ created ∷ [])
unfolding import_regions existing_arn
two_regions = refl

whole_bundle :
    import_bundle
      (λ key. none)
      (λ c. aws)
      "web"
      "a.org"
      none
      ("eu-west-1" ∷ "us-east-1" ∷ [])
      []
      no_arn
      (("cert.pem", "CERT") ∷ ("privkey.pem", "KEY") ∷ [])
      []
    ≡ (ok arns, replaced ∷ created ∷ [])
unfolding import_bundle existing_arn update_tags
whole_bundle = refl

import_regions_sound_example :
    (is : List Import) × Each
      (IsImport aws "a.org" tags [] "" "CERT" "KEY" none)
      ("eu-west-1" ∷ "us-east-1" ∷ [])
      is
    × (replaced ∷ created ∷ [] ≡ [] ++ is)
import_regions_sound_example =
    import_regions_sound aws "a.org" tags [] "" "CERT" "KEY" none ("eu-west-1" ∷ "us-east-1" ∷ [])
      [] (replaced ∷ created ∷ []) arns two_regions
