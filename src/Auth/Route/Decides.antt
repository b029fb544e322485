-- ===== src/Auth/Route/Decides.antt =====
-- The route permission against an independent description of who is let through.
use notifyr.Base.{
  ◌≡◌, refl, sym, ap, ◌∙◌, ◌↔◌, ◌⊎◌, inl, inr, true, false, Option, none, some, List, String,
  lookup, contains, all, arith, Among, Bool-cases, Option-cases, contains→Among, Among→contains,
}
use notifyr.Failure.{ok}
use notifyr.Auth.Token.{Status, active, inactive, expired}
use notifyr.Auth.Permission.{
  Role, custom, ClientType, ClientField, member, text, AuthType, access_token, api_token,
  PermissionScope, RoutePermission, AuthPermission, has_role, intersects, same_type_iff,
  has_role_iff, intersects_iff,
}
use notifyr.Auth.Route.{
  FuncMeta, Accepts, is_member, check_status, check_custom, check_roles, permission_of, permission,
}

-- An access token is young enough; an api token has no age.
abbrev pub IsFresh : Accepts → AuthPermission → Type 0
IsFresh accepts p =
    p.auth_type ≡ access_token
    → (p.status ≡ inactive → accepts.inactive ≡ true)
      × (p.status ≡ expired → accepts.expired ≡ true)

-- One of the first roles is among the second.
abbrev pub Shares : List Role → List Role → Type 0
Shares rs xs = (r : Role) × Among r rs × Among r xs

-- The client's own rules for the class allow the operation.
abbrev pub AllowsRoute : String → FuncMeta → AuthPermission → Type 0
AllowsRoute class_name meta p =
    (route : RoutePermission) × (lookup class_name p.allowed_routes ≡ some route)
    × ((route.scope ≡ PermissionScope.all)
        ⊎ ((routes : List String) × (route.custom_routes ≡ some routes)
            × Among meta.operation_id routes))

-- Who is let through, rule by rule.
pub data IsLetIn (class_name : String) (meta : FuncMeta) (p : AuthPermission) : Type 0 where
  as_admin : p.client_type ≡ member ClientType.admin → IsLetIn class_name meta p
  by_role :
      all (λ option. option p) meta.options ≡ true
      → ¬ Shares meta.excludes p.roles
      → Shares meta.roles p.roles
      → IsLetIn class_name meta p
  by_route :
      all (λ option. option p) meta.options ≡ true
      → ¬ Shares meta.excludes p.roles
      → Among custom p.roles
      → AllowsRoute class_name meta p
      → IsLetIn class_name meta p

check_status-values :
    (accepts : Accepts) (a : AuthType) (t : Status)
    → (check_status accepts a t ≡ ok tt) ↔ (
        a ≡ access_token
        → (t ≡ inactive → accepts.inactive ≡ true) × (t ≡ expired → accepts.expired ≡ true))
unfolding check_status
check_status-values accepts access_token active = (λ _ _. (λ e. cc, λ e. cc), λ _. refl)
check_status-values accepts access_token inactive =
    (λ h _. (λ e. ground arith, λ e. cc), λ f. let g = (f refl).0 refl in ground arith)
check_status-values accepts access_token expired =
    (λ h _. (λ e. cc, λ e. ground arith), λ f. let g = (f refl).1 refl in ground arith)
check_status-values accepts api_token active = (λ _ e. cc, λ _. refl)
check_status-values accepts api_token inactive = (λ _ e. cc, λ _. refl)
check_status-values accepts api_token expired = (λ _ e. cc, λ _. refl)

-- The route's own list, once it is found.
check_custom→allows :
    (meta : FuncMeta) (route : RoutePermission)
    → check_custom meta (some route) ≡ ok true
    → (route.scope ≡ PermissionScope.all)
      ⊎ ((routes : List String) × (route.custom_routes ≡ some routes)
          × Among meta.operation_id routes)
unfolding check_custom
check_custom→allows meta route h = elim (Option-cases route.custom_routes) [
  | inl missing ↦ inl (ground arith)
  | inr (routes, found) ↦ elim (Bool-cases (contains meta.operation_id routes)) [
    | inl listed ↦ inr (routes, found, contains→Among meta.operation_id routes listed)
    | inr absent ↦ inl (ground arith)
  ]
]

allows→check_custom :
    (meta : FuncMeta) (route : RoutePermission)
    → (route.scope ≡ PermissionScope.all)
      ⊎ ((routes : List String) × (route.custom_routes ≡ some routes)
          × Among meta.operation_id routes)
    → check_custom meta (some route) ≡ ok true
unfolding check_custom
allows→check_custom meta route (inl every) = ground arith
allows→check_custom meta route (inr (routes, found, listed)) =
    ground (arith, Among→contains meta.operation_id routes listed)

intersects-false : (rs xs : List Role) → ¬ Shares rs xs → intersects rs xs ≡ false
intersects-false rs xs h = elim (Bool-cases (intersects rs xs)) [
  | inl met ↦ absurd (h ((intersects_iff rs xs).0 met))
  | inr apart ↦ apart
]

intersects-true : (rs xs : List Role) → intersects rs xs ≡ false → ¬ Shares rs xs
intersects-true rs xs e h = cc (sym e ∙ (intersects_iff rs xs).1 h)

module _ (class_name : String) (meta : FuncMeta) (p : AuthPermission) where
  check_custom→AllowsRoute :
      check_custom meta (lookup class_name p.allowed_routes) ≡ ok true
      → AllowsRoute class_name meta p
  check_custom→AllowsRoute h = elim (Option-cases (lookup class_name p.allowed_routes)) [
    | inl missing ↦ absurd (no_route (rw missing at h))
    | inr (route, found) ↦ (route, found, check_custom→allows meta route (rw found at h))
  ]
    where
      no_route : check_custom meta none ≡ ok true → ⊥
      no_route e = unfold check_custom in cc e

  -- The tests on the roles pass exactly by one of the two rules for clients that are no admins.
  check_roles→IsLetIn : check_roles class_name meta p ≡ ok true → IsLetIn class_name meta p
  unfolding check_roles
  check_roles→IsLetIn h = elim (Bool-cases (all (λ option. option p) meta.options)) [
    | inr fails ↦ absurd (ground arith)
    | inl options ↦ elim (Bool-cases (intersects meta.excludes p.roles)) [
      | inl met ↦ absurd (ground arith)
      | inr apart ↦ elim (Bool-cases (intersects meta.roles p.roles)) [
        | inl role ↦
            by_role options (intersects-true _ _ apart) ((intersects_iff meta.roles p.roles).0 role)
        | inr other ↦ elim (Bool-cases (has_role custom p.roles)) [
          | inr plain ↦ absurd (ground arith)
          | inl special ↦
              by_route options (intersects-true _ _ apart) ((has_role_iff custom p.roles).0 special)
                (check_custom→AllowsRoute (ground arith))
        ]
      ]
    ]
  ]

  by_role→check_roles :
      all (λ option. option p) meta.options ≡ true
      → ¬ Shares meta.excludes p.roles
      → Shares meta.roles p.roles
      → check_roles class_name meta p ≡ ok true
  unfolding check_roles
  by_role→check_roles o x r =
      ground
        (arith, intersects-false meta.excludes p.roles x, (intersects_iff meta.roles p.roles).1 r)

  by_route→check_roles :
      all (λ option. option p) meta.options ≡ true
      → ¬ Shares meta.excludes p.roles
      → Among custom p.roles
      → AllowsRoute class_name meta p
      → check_roles class_name meta p ≡ ok true
  unfolding check_roles
  by_route→check_roles o x c (route, found, allows) = ground (
    arith,
    intersects-false meta.excludes p.roles x,
    (has_role_iff custom p.roles).1 c,
    allows→check_custom meta route allows,
  )

  is_member_iff : (t : ClientType) (f : ClientField) → (is_member t f ≡ true) ↔ (f ≡ member t)
  unfolding is_member
  is_member_iff t (member c) =
      (λ h. ap member ((same_type_iff c t).0 h), λ e. ground (arith, (same_type_iff c t).1))
  is_member_iff t (text s) = (λ h. cc, λ e. cc)

  IsLetIn→permission_of :
      (accepts : Accepts)
      → check_status accepts p.auth_type p.status ≡ ok tt
      → IsLetIn class_name meta p
      → permission_of accepts class_name meta p ≡ ok true
  unfolding permission_of
  IsLetIn→permission_of accepts fresh (as_admin e) =
      ground (arith, (is_member_iff ClientType.admin p.client_type).1 e)
  IsLetIn→permission_of accepts fresh (by_role o x r) = ground (arith, by_role→check_roles o x r)
  IsLetIn→permission_of accepts fresh (by_route o x c a) =
      ground (arith, by_route→check_roles o x c a)

  permission_of→IsLetIn :
      (accepts : Accepts)
      → permission_of accepts class_name meta p ≡ ok true
      → (check_status accepts p.auth_type p.status ≡ ok tt) × IsLetIn class_name meta p
  unfolding permission_of
  permission_of→IsLetIn accepts h = elim (Bool-cases (is_member ClientType.admin p.client_type)) [
    | inl admin ↦ (ground arith, as_admin ((is_member_iff ClientType.admin p.client_type).0 admin))
    | inr other ↦ (ground arith, check_roles→IsLetIn (ground arith))
  ]

-- A request is let through exactly when it carries a permission, an access token among these is
-- young enough for the route, and the client is an admin by the enum's member, or passes the route's
-- options, has no excluded role, and has a role of the route or the role CUSTOM with a list of its
-- own that allows the operation.
pub route_permission_iff :
    (accepts : Accepts) (class_name : String) (meta : FuncMeta) (carried : Option AuthPermission)
    → (permission accepts class_name meta carried ≡ ok true)
      ↔ ((p : AuthPermission) × (carried ≡ some p) × IsFresh accepts p × IsLetIn class_name meta p)
unfolding permission
route_permission_iff accepts k meta none = (λ h. cc, λ (p, e, f, l). cc)
route_permission_iff accepts k meta (some p) = (
  λ h.
      let (fresh, let_in) = permission_of→IsLetIn k meta p accepts h in
      (p, refl, (check_status-values accepts p.auth_type p.status).0 fresh, let_in),
  λ (q, e, fresh, let_in). cc (
      IsLetIn→permission_of k meta q accepts
        ((check_status-values accepts q.auth_type q.status).1 fresh) let_in),
)
