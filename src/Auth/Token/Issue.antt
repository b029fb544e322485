-- ===== src/Auth/Token/Issue.antt =====
-- app/services/security_service.py: what becomes of a token that is decoded again.
use notifyr.Base.{◌≡◌, Bool, Option, String, arith, refl, inl, inr}
use notifyr.Base.Int.{ℤ}
use notifyr.Failure.{Result, Result-cases, ok, raise, http, type_error}
use notifyr.Auth.Token.{
  text, Library, Cipher, Vault, Wrapper, nonce, wrapper, to_plain, decode_value, decode_token,
  verify_auth_permission, verify_refresh_permission,
}
use notifyr.Auth.Permission.{AuthPermission}
use notifyr.Auth.Client.{refresh_permission}

-- `update` of a decryptor takes bytes: it raises a TypeError on a text.
abbrev pub RefusesText : {Bytes : Type 0} → Library Bytes → Type 0
RefusesText {Bytes} library =
    (key nonce : Bytes) (t : String) (cipher : Cipher Bytes)
    → library.new_cipher key nonce ≡ ok cipher
    → cipher.decrypt (text t) ≡ raise type_error

abbrev IsRaise : {A : Type 0} → Result A → Type 0
IsRaise {A} r = (e : _) × (r ≡ raise e)

module _ {Bytes : Type 0} (library : Library Bytes) (refuses : RefusesText library) where
  -- A wrapper whose data is a text has no plain text.
  to_plain_text :
      (w : Wrapper Bytes) (t : String)
      → IsRaise (to_plain library (record w { cipher_data = text t }))
  unfolding to_plain
  to_plain_text w t = elim (Result-cases (library.new_cipher w.key w.nonce)) [
    | inl (c, e) ↦
        let refused = refuses w.key w.nonce t c e in (type_error, ground (arith, refused, e))
    | inr (x, e) ↦ (x, ground (arith, e))
  ]

  decode_value-raises : (value key : String) → IsRaise (decode_value library value key)
  unfolding decode_value
  decode_value-raises value key =
      elim (Result-cases (wrapper library value (library.encode key) (nonce library))) [
        | inl (w, e) ↦ let (x, raises) = to_plain_text w value in (x, rw e (rw raises refl))
        | inr (x, e) ↦ (x, rw e refl)
      ]

  decode_token_lem :
      (vault : Vault) (token : String)
      → decode_token library vault token ≡ raise (http 403 "Invalid token")
  unfolding decode_token
  decode_token_lem vault token =
      let (x, raises) = decode_value-raises token vault.on_top_secret_key in rw raises refl

  -- Where the decryptor takes no text, every token is refused with the status 403 as an invalid one,
  -- also those that the server issued itself: as an access token, as a refresh token, and by
  -- JWTRefreshTokenPermission, for any secrets, settings of the permission, clock and challenge.
  pub tokens-refused :
      (vault : Vault) (generation_id token : String) (now : ℤ) (accept_inactive : Bool)
      (p : AuthPermission) (stored : Option String)
      → (verify_auth_permission library vault generation_id now token
          ≡ raise (http 403 "Invalid token"))
        × (verify_refresh_permission library vault now token ≡ raise (http 403 "Invalid token"))
        × (refresh_permission library vault accept_inactive now token p stored
            ≡ raise (http 403 "Invalid token"))
  unfolding verify_auth_permission verify_refresh_permission refresh_permission
  tokens-refused vault g token now accept p stored =
      let refused = decode_token_lem vault token in
      (rw refused refl, rw refused refl, rw refused refl)
