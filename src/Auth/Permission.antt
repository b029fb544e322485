-- ===== src/Auth/Permission.antt =====
-- app/classes/auth_permission.py: roles, client types and the permission of a request, with the
-- option tests that a route may ask for. A set of roles is a list whose order nothing reads.
use notifyr.Base.{
  ◌≤◌, ◌≡◌, refl, ◌↔◌, ◌⊎◌, inl, inr, Bool, true, false, not, ◌||◌, Option, List, [], ◌∷◌, String,
  Dict, Among, arith, length, ◌==◌, if◌then◌else◌, Bool-cases,
}
use mathlib.Core.Bool.{decide}
use notifyr.Auth.Token.{Status}

pub data Role : Type 0 where
  public static admin relay custom mfa_otp chat result refresh contacts twilio : Role
  subscription client link assets profile : Role

pub data ClientType : Type 0 where
  user admin twilio app service : ClientType

-- The Python value in the field `client_type`: a member of the enum, as the middleware copies it
-- from the client's row, or its text, as the type of the field says. The two never compare equal.
pub data ClientField : Type 0 where
  member : ClientType → ClientField
  text : String → ClientField

pub data AuthType : Type 0 where
  access_token api_token : AuthType

pub data Scope : Type 0 where
  solo_dolo organization domain free : Scope

pub data PermissionScope : Type 0 where
  custom all : PermissionScope

-- `custom_routes` may be missing from the dict.
pub record RoutePermission : Type 0 where
  pub scope : PermissionScope
  pub custom_routes : Option (List String)

pub record AuthPermission : Type 0 where
  pub generation_id : String
  pub client_id : String
  pub client_type : ClientField
  pub roles : List Role
  pub issued_for : String
  pub group_id : Option String
  pub auth_type : AuthType
  pub scope : Scope
  pub allowed_routes : Dict RoutePermission
  pub allowed_profiles : List String
  pub allowed_agents : List String
  pub allowed_blogs : List String
  pub status : Status

pub Role-discrete : Discrete Role
Role-discrete = hlevel

pub ClientType-discrete : Discrete ClientType
ClientType-discrete = hlevel

unfoldable pub same_role : Role → Role → Bool
unfolding decide Role-discrete
same_role a b = decide (Role-discrete a b)

unfoldable pub same_type : ClientType → ClientType → Bool
unfolding decide ClientType-discrete
same_type a b = decide (ClientType-discrete a b)

pub same_role_iff : (a b : Role) → (same_role a b ≡ true) ↔ (a ≡ b)
unfolding same_role
same_role_iff a b = elim (Role-discrete a b) as (λ d. (decide d ≡ true) ↔ (a ≡ b)) [
  | yes p ↦ (λ _. p, λ _. refl)
  | no q ↦ (λ h. cc, λ e. absurd (q e))
]

pub same_type_iff : (a b : ClientType) → (same_type a b ≡ true) ↔ (a ≡ b)
unfolding same_type
same_type_iff a b = elim (ClientType-discrete a b) as (λ d. (decide d ≡ true) ↔ (a ≡ b)) [
  | yes p ↦ (λ _. p, λ _. refl)
  | no q ↦ (λ h. cc, λ e. absurd (q e))
]

-- `role in roles`.
unfoldable pub has_role : Role → List Role → Bool
has_role r [] = false
has_role r (x ∷ xs) = same_role x r || has_role r xs

-- `len(roles.intersection(auth_roles)) > 0`.
unfoldable pub intersects : List Role → List Role → Bool
intersects [] auth_roles = false
intersects (r ∷ rs) auth_roles = has_role r auth_roles || intersects rs auth_roles

pub has_role_iff : (r : Role) (xs : List Role) → (has_role r xs ≡ true) ↔ Among r xs
unfolding has_role
has_role_iff r [] = (λ h. cc, λ h. absurd h)
has_role_iff r (x ∷ xs) = (
  λ h. ground (arith, same_role_iff x r, has_role_iff r xs),
  λ h. ground (arith, same_role_iff x r, has_role_iff r xs),
)

-- Two sets of roles meet exactly when one role is among both.
pub intersects_iff :
    (rs xs : List Role) → (intersects rs xs ≡ true) ↔ ((r : Role) × Among r rs × Among r xs)
unfolding intersects
intersects_iff [] xs = (λ h. cc, λ (r, m, _). absurd m)
intersects_iff (r ∷ rs) xs = (
  λ h. elim (Bool-cases (has_role r xs)) [
    | inl met ↦ (r, inl refl, (has_role_iff r xs).0 met)
    | inr apart ↦ let (x, m, n) = (intersects_iff rs xs).0 (rw apart at h) in (x, inr m, n)
  ],
  λ (x, m, n). meet x (λ m'. (intersects_iff rs xs).1 (x, m', n)) m n,
)
  where
    meet :
        (x : Role)
        → (Among x rs → intersects rs xs ≡ true)
        → (r ≡ x) ⊎ Among x rs
        → Among x xs
        → (has_role r xs || intersects rs xs) ≡ true
    meet x later (inl e) n = ground (arith, (has_role_iff r xs).1 (rw e n))
    meet x later (inr m) n = ground (arith, later m)

-- `MustHave(role)`, `MustNotHave(role)` and `MustHaveRoleSuchAs(*roles)`: tests for a route's options.
unfoldable pub must_have : Role → AuthPermission → Bool
must_have role p = has_role role p.roles

unfoldable pub must_not_have : Role → AuthPermission → Bool
must_not_have role p = not (has_role role p.roles)

-- The roles of the set that the permission has; the set is given without repetitions.
unfoldable pub common : List Role → List Role → List Role
common [] auth_roles = []
common (r ∷ rs) auth_roles =
    if has_role r auth_roles then r ∷ common rs auth_roles else common rs auth_roles

unfoldable pub must_have_role_such_as : List Role → AuthPermission → Bool
unfolding common
must_have_role_such_as roles p = length (common roles p.roles) == length roles

length-common : (rs xs : List Role) → length (common rs xs) ≤ length rs
unfolding common
length-common [] xs = omega arith
length-common (r ∷ rs) xs = ground (arith, length-common rs xs)

abbrev pub AllAmong : List Role → List Role → Type 0
AllAmong [] xs = Unit {0}
AllAmong (r ∷ rs) xs = (has_role r xs ≡ true) × AllAmong rs xs

-- Counting the common roles is the same as asking for each of them.
pub must_have_role_such_as_iff :
    (rs : List Role) (p : AuthPermission)
    → (must_have_role_such_as rs p ≡ true) ↔ AllAmong rs p.roles
unfolding must_have_role_such_as
must_have_role_such_as_iff [] p = (λ _. tt, λ _. refl)
must_have_role_such_as_iff (r ∷ rs) p = (
  λ h. ground (arith, length-common rs p.roles, must_have_role_such_as_iff rs p),
  λ h. ground (arith, must_have_role_such_as_iff rs p),
)
