-- ===== src/Auth/Token.antt =====
-- app/services/security_service.py, the tokens of JWTAuthService, with ChaCha20SecretsWrapper of
-- app/classes/secrets.py around them, for plain and encrypted texts (the branches for dictionaries are
-- not modelled). Times are whole microseconds. PyJWT, cryptography, base64 and the codecs of Python
-- are the parameter `Library`. `time.time()`, the salt, the generation id and the secrets of the vault
-- are arguments.
pub mod Age
pub mod Issue
use notifyr.Base.{ℕ, ◌+◌, ◌*◌, Bool, not, Option, none, some, String, ◌≡◌, str_eq, if◌then◌else◌}
use notifyr.Base.Int.{ℤ, pos, ◌+ℤ◌, ◌-ℤ◌, ◌*ℤ◌, ltb_ℤ}
use notifyr.Failure.{Result, ok, raise, http, attribute_error, ◌>>=◌}

pub data Status : Type 0 where
  active inactive expired : Status

-- What a token holds; a refresh token has no `authz_id`.
pub record Claims : Type 0 where
  pub generation_id : String
  pub client_id : String
  pub group_id : Option String
  pub challenge : String
  pub salt : String
  pub created_at : ℤ
  pub expired_at : ℤ
  pub authz_id : Option String

-- The claims with the field `status`, which is set after decoding.
pub record Verified : Type 0 where
  pub claims : Claims
  pub status : Status

-- AUTH_EXPIRATION and REFRESH_EXPIRATION, in seconds.
pub record Settings : Type 0 where
  pub auth_expiration : ℕ
  pub refresh_expiration : ℕ

-- A value that is a text or bytes.
pub data Data (Bytes : Type 0) : Type 0 where
  text : String → Data Bytes
  bytes : Bytes → Data Bytes

-- A cipher of cryptography: `update` of its encryptor and of its decryptor.
pub record Cipher (Bytes : Type 0) : Type 0 where
  pub encrypt : Data Bytes → Result Bytes
  pub decrypt : Data Bytes → Result Bytes

-- What the tokens use of the libraries; `new_cipher` is `Cipher(algorithms.ChaCha20(key, nonce))`.
pub record Library (Bytes : Type 0) : Type 0 where
  pub jwt_encode : Claims → String → Result String
  pub jwt_decode : String → String → Result Claims
  pub encode : String → Bytes
  pub decode : Bytes → Result String
  pub b64encode : Bytes → Bytes
  pub b64decode : String → Result Bytes
  pub new_cipher : Bytes → Bytes → Result (Cipher Bytes)

-- JWT_SECRET_KEY and ON_TOP_SECRET_KEY.
pub record Vault : Type 0 where
  pub jwt_secret_key : String
  pub on_top_secret_key : String

-- ChaCha20SecretsWrapper, made of a text.
pub record Wrapper (Bytes : Type 0) : Type 0 where
  pub key : Bytes
  pub nonce : Bytes
  pub cipher_data : Data Bytes

-- `except Exception as e: print(e)` in front of `return None`.
abbrev pub or_none : {A : Type 0} → Result A → Option A
or_none (ok a) = some a
or_none (raise e) = none

-- Every except clause of `_decode_token` passes, and the HTTP error follows.
abbrev pub or_invalid : {A : Type 0} → Result A → Result A
or_invalid (ok a) = ok a
or_invalid (raise e) = raise (http 403 "Invalid token")

-- `n * 0.5` seconds, in microseconds.
abbrev pub half_seconds : ℕ → ℤ
half_seconds n = pos (500000 * n)

-- `set_status`: expired, then inactive in the last fifth of the lifetime, else active.
unfoldable pub status_at : ℤ → ℤ → ℤ → Status
status_at created_at expired_at now =
    if ltb_ℤ (expired_at -ℤ now) (pos 0)
    then expired
    else if ltb_ℤ (pos 8 *ℤ (expired_at -ℤ created_at)) (pos 10 *ℤ (now -ℤ created_at))
    then inactive
    else active

unfoldable pub set_status : ℤ → Claims → Verified
set_status now c = record { claims = c; status = status_at c.created_at c.expired_at now }

module _ {Bytes : Type 0} (library : Library Bytes) where
  -- `ChaCha20SecretsWrapper(plain, key, nonce)`: `_encrypt` leaves bytes.
  unfoldable pub wrapper : String → Bytes → Bytes → Result (Wrapper Bytes)
  wrapper plain key nonce = do
    cipher ← library.new_cipher key nonce
    encrypted ← cipher.encrypt (bytes (library.encode plain))
    ok (record { key = key; nonce = nonce; cipher_data = bytes encrypted })

  -- `to_plain`, by `_decrypt`: a text is handed to the decryptor as it is, and bytes are taken for a
  -- dictionary.
  unfoldable pub to_plain : Wrapper Bytes → Result String
  to_plain self = elim self.cipher_data [
    | text t ↦ do
      cipher ← library.new_cipher self.key self.nonce
      decrypted ← cipher.decrypt (text t)
      library.decode decrypted
    | bytes b ↦ raise attribute_error
  ]

  -- `cipher_data.decode()`, which a text does not have.
  unfoldable pub decode_data : Data Bytes → Result String
  decode_data (text t) = raise attribute_error
  decode_data (bytes b) = library.decode b

  -- JWTAuthService.NONCE.
  abbrev pub nonce : Bytes
  nonce = library.encode "1234567891234578"

  -- `_encode_value(value, key)`.
  unfoldable pub encode_value : String → String → Result String
  unfolding wrapper decode_data
  encode_value value key = do
    plain ← library.decode (library.b64encode (library.encode value))
    cipher ← wrapper plain (library.encode key) nonce
    decode_data cipher.cipher_data

  -- `_decode_value(value, key)`, which encrypts the value before it sets `cipher_data`.
  unfoldable pub decode_value : String → String → Result String
  unfolding wrapper to_plain
  decode_value value key = do
    cipher ← wrapper value (library.encode key) nonce
    plain ← to_plain (record cipher { cipher_data = text value })
    b ← library.b64decode plain
    library.decode b

  module _ (vault : Vault) where
    -- `_encode_token(obj)`.
    unfoldable pub encode_token : Claims → Result String
    unfolding encode_value
    encode_token claims = do
      encoded ← library.jwt_encode claims vault.jwt_secret_key
      encode_value encoded vault.on_top_secret_key

    -- `encode_auth_token`: None where anything failed.
    unfoldable pub encode_auth_token :
        Settings → String → String → ℤ → String → String → String → Option String → Option String
    unfolding encode_token
    encode_auth_token settings generation_id salt now authz_id client_id challenge group_id =
        or_none (
          encode_token (record {
            generation_id = generation_id;
            client_id = client_id;
            group_id = group_id;
            challenge = challenge;
            salt = salt;
            created_at = now;
            expired_at = now +ℤ half_seconds settings.auth_expiration;
            authz_id = some authz_id;
          }))

    -- `encode_refresh_token`.
    unfoldable pub encode_refresh_token :
        Settings → String → String → ℤ → String → String → Option String → Option String
    unfolding encode_token
    encode_refresh_token settings generation_id salt now client_id challenge group_id = or_none (
        encode_token (record {
          generation_id = generation_id;
          client_id = client_id;
          group_id = group_id;
          challenge = challenge;
          salt = salt;
          created_at = now;
          expired_at = now +ℤ half_seconds settings.refresh_expiration;
          authz_id = none;
        }))

    -- `_decode_token(token)`.
    unfoldable pub decode_token : String → Result Claims
    unfolding decode_value
    decode_token token = or_invalid do
      encoded ← decode_value token vault.on_top_secret_key
      library.jwt_decode encoded vault.jwt_secret_key

    -- `verify_auth_permission`, against the generation id of the server.
    unfoldable pub verify_auth_permission : String → ℤ → String → Result Verified
    unfolding set_status decode_token
    verify_auth_permission generation_id now token = do
      c ← decode_token token
      let permission = set_status now c
      if not (str_eq permission.claims.generation_id generation_id)
          then raise (http 403 "Old Token not valid anymore")
          else ok permission

    -- `verify_refresh_permission`.
    unfoldable pub verify_refresh_permission : ℤ → String → Result Verified
    unfolding set_status decode_token
    verify_refresh_permission now token = do
      c ← decode_token token
      let permission = set_status now c
      elim permission.status [ expired ↦ raise (http 401 "Token expired") | _ ↦ ok permission ]
