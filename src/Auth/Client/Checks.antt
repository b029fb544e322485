-- ===== src/Auth/Client/Checks.antt =====
-- The middleware and the permission classes behind it, together.
use notifyr.Base.{
  ◌≡◌, refl, sym, ap, ◌∙◌, ◌≢◌, ◌↔◌, ◌⊎◌, inl, inr, Bool, true, false, not, ◌&&◌, some, String,
  eq_iff, arith, if◌then◌else◌,
}
use notifyr.Failure.{Result, ok, raise, http, ◌>>◌}
use notifyr.Auth.Token.{Verified}
use notifyr.Auth.Permission.{
  ClientType, member, Scope, solo_dolo, organization, domain, free, AuthPermission, same_type,
  same_type_iff,
}
use notifyr.Auth.Route.{FuncMeta, Accepts, permission}
use notifyr.Auth.Route.Decides.{IsFresh, as_admin, route_permission_iff}
use notifyr.Auth.Client.{
  ClientRow, Policies, refuse_if, verify_client_origin, merge, authenticate, client_type_permission,
}

-- The scope of the client lets a request of this address on: an organization is never let on, and a
-- domain always, since no origin is looked at.
abbrev pub FitsOrigin : ClientRow → String → Type 0
FitsOrigin client client_ip =
    ((client.client_scope ≡ solo_dolo) × (client_ip ≡ client.issued_for))
    ⊎ (client.client_scope ≡ domain)
    ⊎ (client.client_scope ≡ free)

origin_iff :
    (scope : Scope) (issued_for client_ip origin : String)
    → (verify_client_origin scope issued_for client_ip (some origin) ≡ ok tt)
      ↔ (((scope ≡ solo_dolo) × (client_ip ≡ issued_for)) ⊎ (scope ≡ domain) ⊎ (scope ≡ free))
unfolding verify_client_origin
origin_iff solo_dolo i c o = ground (arith, eq_iff c i)
origin_iff organization i c o = ground arith
origin_iff domain i c o = (λ _. inr (inl refl), λ _. refl)
origin_iff free i c o = (λ _. inr (inr refl), λ _. refl)

-- The chain of tests, over their values.
chain_iff :
    (r : Result (Unit {0})) (authenticated admin blacklisted : Bool) (m p : AuthPermission)
    → ((do
      r
      if not authenticated then raise (http 401 "Client is not authenticated") else ok tt
      refuse_if (not admin && blacklisted) "Client is blacklisted"
      ok m)
        ≡ ok p)
      ↔ ((r ≡ ok tt) × (authenticated ≡ true) × ((admin ≡ true) ⊎ (blacklisted ≡ false)) × (m ≡ p))
chain_iff (raise e) a b c m p = (λ h. cc, λ (h, _, _, _). cc)
chain_iff (ok _) false b c m p = (λ h. cc, λ (_, h, _, _). cc)
chain_iff (ok _) true true c m p = ground arith
chain_iff (ok _) true false true m p = ground arith
chain_iff (ok _) true false false m p = ground arith

pub authenticate_iff :
    (v : Verified) (client_ip : String) (client : ClientRow) (blacklisted : Bool)
    (policies : Policies) (p : AuthPermission)
    → (authenticate v client_ip client blacklisted policies ≡ ok p) ↔ (
        FitsOrigin client client_ip
        × (client.authenticated ≡ true)
        × ((client.client_type ≡ ClientType.admin) ⊎ (blacklisted ≡ false))
        × (merge v client policies ≡ p))
unfolding authenticate
authenticate_iff v ip client blacklisted policies p =
    let chain =
      chain_iff (verify_client_origin client.client_scope client.issued_for ip (some "..."))
        client.authenticated (same_type client.client_type ClientType.admin) blacklisted
        (merge v client policies) p in
    let fits = origin_iff client.client_scope client.issued_for ip "..." in
    let admin = same_type_iff client.client_type ClientType.admin in
    (
      λ h.
          let (o, a, b, m) = chain.0 h in
          (fits.0 o, a, elim b [ inl e ↦ inl (admin.0 e) | inr e ↦ inr e ], m),
      λ (o, a, b, m). chain.1 (fits.1 o, a, elim b [ inl e ↦ inl (admin.1 e) | inr e ↦ inr e ], m),
    )

-- AdminPermission, TwilioPermission and UserPermission refuse every request that the middleware let
-- on, since they compare the text of a client type with a member of the enum.
pub client_type_permission-refuses :
    (v : Verified) (client_ip : String) (client : ClientRow) (blacklisted : Bool)
    (policies : Policies) (p : AuthPermission) (wanted stored : ClientType) (ensure : Bool)
    → authenticate v client_ip client blacklisted policies ≡ ok p
    → client_type_permission wanted ensure stored p ≢ ok true
client_type_permission-refuses v ip client blacklisted policies p wanted stored ensure h k =
    let (_, _, _, m) = (authenticate_iff v ip client blacklisted policies p).0 h in
    never (rw (← m) at k)
  where
    never : client_type_permission wanted ensure stored (merge v client policies) ≡ ok true → ⊥
    never e = unfold client_type_permission merge in ground arith

-- An admin that the middleware lets on with a token that is young enough may call every route.
pub authenticate-permission_admin :
    (v : Verified) (client_ip : String) (client : ClientRow) (blacklisted : Bool)
    (policies : Policies) (p : AuthPermission) (accepts : Accepts) (class_name : String)
    (meta : FuncMeta)
    → authenticate v client_ip client blacklisted policies ≡ ok p
    → client.client_type ≡ ClientType.admin
    → IsFresh accepts p
    → permission accepts class_name meta (some p) ≡ ok true
authenticate-permission_admin v ip client blacklisted policies p accepts k meta h admin f =
    let (_, _, _, m) = (authenticate_iff v ip client blacklisted policies p).0 h in
    (route_permission_iff accepts k meta (some p)).1
      (p, refl, f, as_admin (ap (λ q. q.client_type) (sym m) ∙ copied))
  where
    copied : (merge v client policies).client_type ≡ member ClientType.admin
    copied = unfold merge in ap member admin
