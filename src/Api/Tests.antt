-- ===== src/Api/Tests.antt =====
-- An entry with a token of its own beside a global token, and the guards at it.
use certman.Base.{
  String, ◌≡◌, refl, true, none, some, [], ◌∷◌, truthy, ok, err, strip, lower, split_once,
}
use certman.Api.Auth.{
  TokenEntry, AuthConfig, token_config_error, missing_token, invalid_token,
  require_global_token_if_configured, require_entry_token_if_configured,
}
use certman.Api.Admission.{Carries, Opens, require_entry_token_sound}

abbrev site_a : TokenEntry
site_a = record { name = "site-a"; token = some "token-a" }

abbrev site_b : TokenEntry
site_b = record { name = "site-b"; token = some "" }

abbrev config : AuthConfig
config = record { server = some true; global_token = some "global"; entries = site_a ∷ site_b ∷ [] }

empty_token : require_entry_token_if_configured config (some "Bearer global") "site-b" ≡ ok tt
unfolding require_entry_token_if_configured split_once lower strip
empty_token = refl

global_token_refused :
    require_entry_token_if_configured config (some "Bearer global") "site-a" ≡ err invalid_token
unfolding require_entry_token_if_configured split_once lower strip
global_token_refused = refl

blank_token : require_global_token_if_configured config (some "Bearer   ") ≡ err missing_token
unfolding require_global_token_if_configured split_once lower strip
blank_token = refl

no_token :
    require_global_token_if_configured (record config { global_token = none }) none
    ≡ err token_config_error
unfolding require_global_token_if_configured
no_token = refl

require_entry_token_sound_example :
    (text : String) × (token : String) × (some "bearer  token-a" ≡ some text)
    × Carries text token
    × (truthy token ≡ true)
    × Opens config "site-a" token
unfolding require_entry_token_if_configured split_once lower strip
require_entry_token_sound_example =
    require_entry_token_sound config (some "bearer  token-a") "site-a" refl refl
