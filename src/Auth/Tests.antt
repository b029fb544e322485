-- ===== src/Auth/Tests.antt =====
-- Concrete tokens, clients and routes.
use notifyr.Base.{
  ◌≡◌, ◌≢◌, refl, ◌≤◌, inl, inr, true, false, none, some, List, String, [], ◌∷◌, arith,
}
use notifyr.Base.Int.{pos}
use notifyr.Failure.{Result, ok, raise, http, type_error}
use notifyr.Auth.Token.{
  active, Claims, Verified, Settings, text, bytes, Cipher, Library, Vault, status_at, wrapper,
  decode_data, encode_value, encode_token, encode_auth_token, verify_auth_permission,
  verify_refresh_permission,
}
use notifyr.Auth.Token.Age.{rank, status_at_monotone}
use notifyr.Auth.Token.Issue.{RefusesText, tokens-refused}
use notifyr.Auth.Permission.{
  public, custom, ClientType, access_token, free, PermissionScope, AuthPermission,
}
use notifyr.Auth.Route.{FuncMeta, Accepts, permission}
use notifyr.Auth.Route.Decides.{by_route, route_permission_iff}
use notifyr.Auth.Client.{
  ClientRow, Policies, merge, authenticate, client_type_permission, refresh_permission,
}
use notifyr.Auth.Client.Checks.{authenticate_iff, client_type_permission-refuses}

abbrev claims : Claims
claims = record {
  generation_id = "g";
  client_id = "c";
  group_id = none;
  challenge = "x";
  salt = "s";
  created_at = pos 0;
  expired_at = pos 1000;
  authz_id = none;
}

abbrev verified : Verified
verified = record { claims = claims; status = active }

abbrev row : ClientRow
row = record {
  client_type = ClientType.admin;
  client_scope = free;
  issued_for = "10.0.0.1";
  auth_type = access_token;
  authenticated = true;
}

abbrev policies : Policies
policies = record {
  roles = custom ∷ [];
  allowed_routes =
      ("Links", record { scope = PermissionScope.custom; custom_routes = some ("read" ∷ []) }) ∷ [];
  allowed_profiles = [];
  allowed_agents = [];
  allowed_blogs = [];
}

abbrev carried : AuthPermission
carried = merge verified (record row { client_type = ClientType.app }) policies

abbrev meta : FuncMeta
meta = record { operation_id = "read"; roles = public ∷ []; excludes = []; options = [] }

abbrev accepts : Accepts
accepts = record { inactive = false; expired = false }

status_at_monotone_example :
    rank (status_at (pos 0) (pos 100) (pos 50)) ≤ rank (status_at (pos 0) (pos 100) (pos 90))
status_at_monotone_example = status_at_monotone (pos 0) (pos 100) (pos 50) (pos 90) (omega arith)

route_permission_iff_example : permission accepts "Links" meta (some carried) ≡ ok true
unfolding merge
route_permission_iff_example = (route_permission_iff accepts "Links" meta (some carried)).1 (
  carried,
  refl,
  (λ _. (λ e. cc, λ e. cc)),
  by_route refl (λ (r, m, _). m) (inl refl)
      (
        record { scope = PermissionScope.custom; custom_routes = some ("read" ∷ []) },
        refl,
        inr ("read" ∷ [], refl, inl refl),
      ),
)

-- Libraries over lists of texts in place of bytes, with a cipher that leaves the bytes as they are.
abbrev no_cipher : Cipher (List String)
no_cipher = record {
  encrypt = λ d. elim d [ text t ↦ raise type_error | bytes b ↦ ok b ];
  decrypt = λ d. elim d [ text t ↦ raise type_error | bytes b ↦ ok b ];
}

abbrev first_text : List String → Result String
first_text [] = ok ""
first_text (t ∷ ts) = ok t

abbrev library : Library (List String)
library = record {
  jwt_encode = λ c secret. ok c.client_id;
  jwt_decode = λ t secret. ok (record claims { client_id = t });
  encode = λ t. t ∷ [];
  decode = first_text;
  b64encode = λ b. b;
  b64decode = λ t. ok (t ∷ []);
  new_cipher = λ key nonce. ok no_cipher;
}

library-RefusesText : RefusesText library
library-RefusesText key nonce t cipher e = ground (arith, e)

abbrev vault : Vault
vault = record { jwt_secret_key = "j"; on_top_secret_key = "k" }

abbrev settings : Settings
settings = record { auth_expiration = 200; refresh_expiration = 1000 }

-- A token that the server issues.
issued : encode_auth_token library vault settings "g" "s" (pos 0) "a" "c" "x" none ≡ some "c"
unfolding encode_auth_token encode_token encode_value wrapper decode_data
issued = refl

tokens-refused_example :
    (verify_auth_permission library vault "g" (pos 1) "c" ≡ raise (http 403 "Invalid token"))
    × (verify_refresh_permission library vault (pos 1) "c" ≡ raise (http 403 "Invalid token"))
    × (refresh_permission library vault true (pos 1) "c" carried (some "x")
        ≡ raise (http 403 "Invalid token"))
tokens-refused_example =
    tokens-refused library library-RefusesText vault "g" "c" (pos 1) true carried (some "x")

let_on : authenticate verified "10.0.0.9" row true policies ≡ ok (merge verified row policies)
let_on =
    (authenticate_iff verified "10.0.0.9" row true policies (merge verified row policies)).1
      (inr (inr refl), refl, inl refl, refl)

client_type_permission-refuses_example :
    client_type_permission ClientType.admin false ClientType.admin (merge verified row policies)
    ≢ ok true
client_type_permission-refuses_example =
    client_type_permission-refuses verified "10.0.0.9" row true policies
      (merge verified row policies) ClientType.admin ClientType.admin false let_on
