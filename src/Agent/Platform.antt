-- ===== src/Agent/Platform.antt =====
-- Cryptography and text formats that the endpoints call: hashlib, hmac, cryptography, base64 and
-- json, as a record of functions, with what the code relies on as laws.
use certman.Base.{ℕ, String, Bool, Option}
use certman.Job.Table.{Job}

-- the payload of a bundle token
pub record Claims : Type 0 where
  pub node_id : String
  pub job_id : String
  pub exp : ℕ

pub record Platform : Type 0 where
  -- hashlib.sha256(text).hexdigest()
  pub sha256 : String → String
  -- hmac.new(key, text, sha256).hexdigest()
  pub hmac_sha256 : String → String → String
  -- whether load_pem_public_key accepts the text
  pub loads_pem : String → Bool
  -- public key, signature in base64, message: whether `verify` returns
  pub verifies : String → String → String → Bool
  -- private key, message: the signature in base64
  pub sign : String → String → String
  -- json.dumps of a str, of an int, and of an optional str
  pub quote : String → String
  pub decimal : ℕ → String
  pub quote_opt : Option String → String
  -- JobRecord.model_dump_json
  pub dump_job : Job → String
  -- urlsafe_b64encode(json.dumps(payload)).rstrip("="), and its inverse, `none` where it raises
  pub encode_claims : Claims → String
  pub decode_claims : String → Option Claims
