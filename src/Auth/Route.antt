-- ===== src/Auth/Route.antt =====
-- app/decorators/permissions.py, JWTRouteHTTPPermission: may this permission call this route?
pub mod Decides
use notifyr.Base.{
  Bool, true, false, not, ◌&&◌, Option, none, some, List, String, Dict, lookup, contains, all,
  if◌then◌else◌,
}
use notifyr.Failure.{Result, ok, raise, http, key_error}
use notifyr.Auth.Token.{Status, active, inactive, expired}
use notifyr.Auth.Permission.{
  Role, custom, ClientType, ClientField, member, text, AuthType, access_token, api_token,
  PermissionScope, RoutePermission, AuthPermission, same_type, has_role, intersects,
}

-- FuncMetaData, as far as the permission reads it.
pub record FuncMeta : Type 0 where
  pub operation_id : String
  pub roles : List Role
  pub excludes : List Role
  pub options : List (AuthPermission → Bool)

-- `accept_inactive` and `accept_expired`.
pub record Accepts : Type 0 where
  pub inactive : Bool
  pub expired : Bool

-- `authPermission['client_type'] == ClientType.X`.
unfoldable pub is_member : ClientType → ClientField → Bool
is_member t (member c) = same_type c t
is_member t (text s) = false

abbrev is_access : AuthType → Bool
is_access access_token = true
is_access api_token = false

abbrev is_all : PermissionScope → Bool
is_all PermissionScope.all = true
is_all PermissionScope.custom = false

-- The first two tests: the age of an access token.
unfoldable pub check_status : Accepts → AuthType → Status → Result (Unit {0})
check_status accepts access_token inactive =
    if accepts.inactive then ok tt else raise (http 403 "Permission not active")
check_status accepts access_token expired =
    if accepts.expired then ok tt else raise (http 403 "Permission expired")
check_status accepts _ _ = ok tt

-- The tests of a client with the role CUSTOM: its own list of routes.
unfoldable pub check_custom : FuncMeta → Option RoutePermission → Result Bool
check_custom meta none = raise (http 403 "Ressource not allowed")
check_custom meta (some route) = if is_all route.scope then ok true else elim route.custom_routes [
  | none ↦ raise key_error
  | some routes ↦
      if not (contains meta.operation_id routes)
      then raise (http 403 "Route not allowed")
      else ok true
]

-- The tests on the roles.
unfoldable pub check_roles : String → FuncMeta → AuthPermission → Result Bool
check_roles class_name meta p =
    if not (all (λ option. option p) meta.options)
    then raise (http 403 "Role details not allowed")
    else if intersects meta.excludes p.roles
    then raise (http 403 "Role not allowed")
    else if intersects meta.roles p.roles
    then ok true
    else if not (has_role custom p.roles)
    then raise (http 403 "Role not allowed")
    else check_custom meta (lookup class_name p.allowed_routes)

-- The permission behind the test for None.
unfoldable pub permission_of : Accepts → String → FuncMeta → AuthPermission → Result Bool
permission_of accepts class_name meta p = elim (check_status accepts p.auth_type p.status) [
  | raise e ↦ raise e
  | ok _ ↦
      if is_member ClientType.admin p.client_type then ok true else check_roles class_name meta p
]

unfoldable pub permission : Accepts → String → FuncMeta → Option AuthPermission → Result Bool
unfolding permission_of
permission accepts class_name meta none = raise (http 501 "Auth Permission not implemented")
permission accepts class_name meta (some p) = permission_of accepts class_name meta p
