-- ===== src/Auth/Client.antt =====
-- app/decorators/permissions.py, the permission classes that look at one fact about the client, and
-- the steps of JWTAuthMiddleware in app/server/middleware.py that make the permission of a request.
-- What the database and the caches answer comes as arguments.
pub mod Checks
use notifyr.Base.{
  Bool, true, false, not, ◌&&◌, Option, none, some, List, String, Dict, contains, str_eq,
  if◌then◌else◌,
}
use notifyr.Failure.{Result, ok, raise, http, type_error, attribute_error, ◌>>=◌, ◌>>◌}
use notifyr.Base.Int.{ℤ}
use notifyr.Auth.Token.{Status, active, Verified, Library, Vault, verify_refresh_permission}
use notifyr.Auth.Permission.{
  Role, ClientType, ClientField, member, text, AuthType, Scope, solo_dolo, organization, domain,
  free, RoutePermission, AuthPermission, same_type,
}
use notifyr.Auth.Route.{is_member}

-- `self.client_type.value`.
abbrev pub type_value : ClientType → String
type_value ClientType.user = "User"
type_value ClientType.admin = "Admin"
type_value ClientType.twilio = "Twilio"
type_value ClientType.app = "App"
type_value ClientType.service = "Service"

abbrev pub refuse_if : Bool → String → Result (Unit {0})
refuse_if test detail = if test then raise (http 403 detail) else ok tt

-- `authPermission['client_type'] == self.client_type.value`: a member of the enum is no text.
unfoldable pub is_text : String → ClientField → Bool
is_text s (member c) = false
is_text s (text t) = str_eq t s

-- AbstractClientTypePermission.permission; `stored` is the client type in the database.
unfoldable pub client_type_permission :
    ClientType → Bool → ClientType → AuthPermission → Result Bool
unfolding is_text
client_type_permission client_type ensure stored p = do
  refuse_if (ensure && not (same_type stored client_type)) "Client is of another type"
  refuse_if (not (is_text (type_value client_type) p.client_type)) "Client type is another"
  ok true

-- UserPermission.permission, which takes a missing permission too.
unfoldable pub user_permission : Bool → Bool → ClientType → Option AuthPermission → Result Bool
unfolding client_type_permission
user_permission ensure accept_none_auth stored none = ok accept_none_auth
user_permission ensure accept_none_auth stored (some p) =
    client_type_permission ClientType.user ensure stored p

abbrev is_active : Status → Bool
is_active active = true
is_active _ = false

abbrev same_group : Option String → Option String → Bool
same_group none none = true
same_group (some a) (some b) = str_eq a b
same_group _ _ = false

-- The challenge that the database holds; a missing row is an AttributeError.
abbrev check_challenge : Option String → String → Result (Unit {0})
check_challenge none challenge = raise attribute_error
check_challenge (some stored) challenge =
    refuse_if (not (str_eq stored challenge)) "Challenge not valid"

-- JWTRefreshTokenPermission.permission: the refresh token is verified first.
unfoldable pub refresh_permission :
    {Bytes : Type 0}
    → Library Bytes
    → Vault
    → Bool
    → ℤ
    → String
    → AuthPermission
    → Option String
    → Result Bool
unfolding verify_refresh_permission
refresh_permission library vault accept_inactive now token p stored_challenge = do
  refresh ← verify_refresh_permission library vault now token
  refuse_if (not (is_active refresh.status) && not accept_inactive) "Permission not active"
  refuse_if (not (str_eq refresh.claims.client_id p.client_id)) "Client Error"
  refuse_if (not (str_eq refresh.claims.generation_id p.generation_id)) "Generation ID mismatch"
  refuse_if (not (same_group refresh.claims.group_id p.group_id)) "Group ID mismatch"
  check_challenge stored_challenge refresh.claims.challenge
  ok true

-- JWTContactPermission.permission: `scope` is none for 'any'. HTTPException has no parameter
-- `status`, so each refusal of the source ends in a TypeError.
unfoldable pub contact_permission :
    Option String → String → String → String → String → String → Result Bool
contact_permission scope contact_token contact_id token claimed_id claimed_scope =
    if not (str_eq contact_token token)
    then raise type_error
    else if not (str_eq contact_id claimed_id)
    then raise type_error
    else elim scope [
      | none ↦ ok true
      | some s ↦ if not (str_eq s claimed_scope) then raise type_error else ok true
    ]

-- JWTStaticObjectPermission.permission, which refuses by False.
unfoldable pub blog_permission : AuthPermission → String → Result Bool
unfolding is_member
blog_permission p blog =
    if is_member ClientType.admin p.client_type then ok true else ok (contains blog p.allowed_blogs)

-- ProfilePermission and AgentPermission.
unfoldable pub profile_permission : AuthPermission → String → Result Bool
profile_permission p profile = do
  refuse_if (not (contains profile p.allowed_profiles)) "Profile Is not allowed to be used"
  ok true

unfoldable pub agent_permission : AuthPermission → String → Result Bool
agent_permission p agent = do
  refuse_if (not (contains agent p.allowed_agents)) "Agent Is not allowed to be used"
  ok true

-- `same_client_authPermission`.
unfoldable pub same_client : AuthPermission → String → Result Bool
same_client p client_id = do
  refuse_if (not (str_eq p.client_id client_id)) "Client ID mismatch"
  ok true

-- What the middleware reads of the client's row.
pub record ClientRow : Type 0 where
  pub client_type : ClientType
  pub client_scope : Scope
  pub issued_for : String
  pub auth_type : AuthType
  pub authenticated : Bool

-- The policies of a client, with the roles read as members of the enum.
pub record Policies : Type 0 where
  pub roles : List Role
  pub allowed_routes : Dict RoutePermission
  pub allowed_profiles : List String
  pub allowed_agents : List String
  pub allowed_blogs : List String

-- `verify_client_origin(permission, issued_for, origin)`.
unfoldable pub verify_client_origin : Scope → String → String → Option String → Result (Unit {0})
verify_client_origin solo_dolo row_issued_for issued_for origin =
    refuse_if (not (str_eq issued_for row_issued_for)) "Token not issued for this user"
verify_client_origin organization row_issued_for issued_for origin =
    raise (http 403 "Token not issued for this user")
verify_client_origin domain row_issued_for issued_for none =
    raise (http 403 "Origin header missing")
verify_client_origin domain row_issued_for issued_for (some o) = ok tt
verify_client_origin free row_issued_for issued_for origin = ok tt

-- `_copy_client_into_auth` and the merge with the policies.
unfoldable pub merge : Verified → ClientRow → Policies → AuthPermission
merge verified client policies = record {
  generation_id = verified.claims.generation_id;
  client_id = verified.claims.client_id;
  client_type = member client.client_type;
  roles = policies.roles;
  issued_for = client.issued_for;
  group_id = verified.claims.group_id;
  auth_type = client.auth_type;
  scope = client.client_scope;
  allowed_routes = policies.allowed_routes;
  allowed_profiles = policies.allowed_profiles;
  allowed_agents = policies.allowed_agents;
  allowed_blogs = policies.allowed_blogs;
  status = verified.status;
}

-- JWTAuthMiddleware.dispatch behind verify_auth_permission, up to the permission that it puts on the
-- request. It sets `origin = ...`, the Ellipsis, which is there for every request. An admin is not
-- looked up in the blacklist.
unfoldable pub authenticate :
    Verified → String → ClientRow → Bool → Policies → Result AuthPermission
authenticate verified client_ip client blacklisted policies = do
  let origin = some "..."
  verify_client_origin client.client_scope client.issued_for client_ip origin
  if not client.authenticated then raise (http 401 "Client is not authenticated") else ok tt
  refuse_if (not (same_type client.client_type ClientType.admin) && blacklisted)
      "Client is blacklisted"
  ok (merge verified client policies)
