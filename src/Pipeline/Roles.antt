-- ===== src/Pipeline/Roles.antt =====
-- app/definition/_ressource.py, HTTPRoute and UseRoles: the roles that a route asks for. A set of
-- roles is the list of its members.
use notifyr.Base.{
  ◌≡◌, refl, Bool, true, false, not, ◌&&◌, ◌||◌, if◌then◌else◌, List, [], ◌∷◌, ◌++◌, arith, keep,
  Bool-cases, inl, inr, ap, ◌∙◌,
}
use notifyr.Auth.Permission.{
  Role, public, custom, AuthPermission, same_role, same_role_iff, has_role,
}

-- FuncMetaData, as far as the roles are concerned
pub record RoleMeta : Type 0 where
  pub roles : List Role
  pub excludes : List Role
  pub options : List (AuthPermission → Bool)
  pub default_role : Bool

-- what HTTPRoute sets
abbrev pub new_route : RoleMeta
new_route = record { roles = public ∷ []; excludes = []; options = []; default_role = true }

abbrev pub difference : List Role → List Role → List Role
difference xs ys = keep (λ r. not (has_role r ys)) xs

unfoldable pub use_roles :
    List Role → List Role → List (AuthPermission → Bool) → RoleMeta → RoleMeta
use_roles roles excludes options meta =
    let excludes_ = difference excludes roles in
    let roles_ = difference roles (custom ∷ []) in
    let all_roles = (if meta.default_role then [] else meta.roles) ++ roles_ in
    record {
      roles = all_roles;
      excludes = meta.excludes ++ difference excludes_ all_roles;
      options = meta.options ++ options;
      default_role = false;
    }

has_role-append :
    (r : Role) (xs ys : List Role) → has_role r (xs ++ ys) ≡ (has_role r xs || has_role r ys)
unfolding has_role
has_role-append r [] ys = refl
has_role-append r (x ∷ xs) ys = ground (arith, has_role-append r xs ys)

has_role-difference :
    (r : Role) (xs ys : List Role)
    → has_role r (difference xs ys) ≡ (has_role r xs && not (has_role r ys))
unfolding has_role
has_role-difference r [] ys = refl
has_role-difference r (x ∷ xs) ys = elim (Bool-cases (has_role x ys)) [
  | inl e ↦ rw e (has_role-difference r xs ys ∙ ground (arith, same_role_iff x r, member x r ys e))
  | inr e ↦ rw e (
      ap (λ b. same_role x r || b) (has_role-difference r xs ys)
      ∙ ground (arith, same_role_iff x r, not_member x r ys e))
]
  where
    member :
        (x r : Role) (ys : List Role)
        → has_role x ys ≡ true
        → same_role x r ≡ true
        → has_role r ys ≡ true
    member x r ys e s = rw ((same_role_iff x r).0 s) at e

    not_member :
        (x r : Role) (ys : List Role)
        → has_role x ys ≡ false
        → same_role x r ≡ true
        → has_role r ys ≡ false
    not_member x r ys e s = rw ((same_role_iff x r).0 s) at e

has_role-default :
    (r : Role) (default_role : Bool) (roles : List Role)
    → has_role r (if default_role then [] else roles) ≡ (not default_role && has_role r roles)
unfolding has_role
has_role-default r true roles = refl
has_role-default r false roles = refl

-- After UseRoles a route asks for the roles that it is given, but CUSTOM, and for those that an
-- earlier UseRoles gave it. It excludes what it excluded before, and the roles given to exclude that
-- are given neither as roles nor by an earlier UseRoles.
pub use_roles-has_role :
    (roles excludes : List Role) (options : List (AuthPermission → Bool)) (meta : RoleMeta)
    (r : Role)
    → let after = use_roles roles excludes options meta in
      let earlier = not meta.default_role && has_role r meta.roles in
      (has_role r after.roles ≡ (earlier || (has_role r roles && not (same_role custom r))))
      × (has_role r after.excludes ≡ (
          has_role r meta.excludes
          || (has_role r excludes && not (has_role r roles) && not earlier)))
unfolding use_roles has_role
use_roles-has_role roles excludes options meta r =
    let base = if meta.default_role then [] else meta.roles in
    let own = difference roles (custom ∷ []) in
    let all_roles = base ++ own in
    let given = has_role-append r base own in
    let kept = has_role-difference r roles (custom ∷ []) in
    let before = has_role-default r meta.default_role meta.roles in
    (
      ground (arith, given, kept, before),
      ground (
        arith,
        given,
        kept,
        before,
        has_role-append r meta.excludes (difference (difference excludes roles) all_roles),
        has_role-difference r (difference excludes roles) all_roles,
        has_role-difference r excludes roles,
      ),
    )
