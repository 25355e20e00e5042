-- ===== src/Api/Auth.antt =====
-- The guards of certman/api/auth.py. A request is its Authorization header.
use Prim.Native.Char.{Char, code}
use certman.Base.{
  String, Bool, true, false, Option, none, some, List, ◌==◌, ◌&&◌, ◌||◌, not, ltb, find?,
  if◌then◌else◌, truthy, truthy_opt, or_empty, strip, lower, split_once, Result, ok, err,
}

-- What a guard raises: an HTTPException with a code, or TypeError.
pub data AuthError : Type 0 where
  token_config_error missing_token invalid_token type_error : AuthError

pub record TokenEntry : Type 0 where
  pub name : String
  pub token : Option String

-- What the guards read of the configuration; `server` is `server.token_auth_enabled`.
pub record AuthConfig : Type 0 where
  pub server : Option Bool
  pub global_token : Option String
  pub entries : List TokenEntry

abbrev pub space : Char
space = " "

unfoldable pub bearer_of : Option (String × String) → Option String
bearer_of none = none
bearer_of (some (scheme, token)) =
    if not (lower scheme == "bearer") || not (truthy token) then none else some (strip token)

unfoldable pub get_bearer_token : Option String → Option String
unfolding bearer_of
get_bearer_token none = none
get_bearer_token (some authorization) =
    if not (truthy authorization) then none else bearer_of (split_once space authorization)

unfoldable pub resolve_entry_token : AuthConfig → String → Option String
resolve_entry_token config entry_name =
    elim (find? (λ item. item.name == entry_name) config.entries) [
      | none ↦ config.global_token
      | some entry ↦ if truthy_opt entry.token then entry.token else config.global_token
    ]

unfoldable pub is_token_auth_enabled : AuthConfig → Bool
is_token_auth_enabled config = elim config.server [ none ↦ false | some enabled ↦ enabled ]

unfoldable pub is_ascii : String → Bool
is_ascii String.[] = true
is_ascii (String.◌∷◌ c s) = ltb (code c) 128 && is_ascii s

-- `hmac.compare_digest` of two texts, which must be ASCII
unfoldable pub compare_digest : String → String → Result AuthError Bool
unfolding is_ascii
compare_digest provided expected =
    if is_ascii provided && is_ascii expected then ok (provided == expected) else err type_error

unfoldable pub require_token : Option String → String → Result AuthError (Unit {0})
unfolding get_bearer_token compare_digest
require_token header expected =
    let provided = get_bearer_token header in
    if not (truthy_opt provided)
    then err missing_token
    else elim (compare_digest (or_empty provided) expected) [
      | err e ↦ err e
      | ok same ↦ if not same then err invalid_token else ok tt
    ]

-- the guards after the test whether tokens are in use
abbrev pub require_effective : Option String → Option String → Result AuthError (Unit {0})
require_effective header expected =
    if not (truthy_opt expected)
    then err token_config_error
    else require_token header (or_empty expected)

unfoldable pub require_global_token_if_configured :
    AuthConfig → Option String → Result AuthError (Unit {0})
unfolding is_token_auth_enabled require_token
require_global_token_if_configured config header =
    if not (is_token_auth_enabled config)
    then ok tt
    else require_effective header config.global_token

unfoldable pub require_entry_token_if_configured :
    AuthConfig → Option String → String → Result AuthError (Unit {0})
unfolding is_token_auth_enabled require_token resolve_entry_token
require_entry_token_if_configured config header entry_name =
    if not (is_token_auth_enabled config)
    then ok tt
    else require_effective header (resolve_entry_token config entry_name)
