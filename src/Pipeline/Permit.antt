-- ===== src/Pipeline/Permit.antt =====
-- app/definition/_ressource.py, UsePermission, UseGuard and PingService: what a call has to pass.
use notifyr.Base.{
  String, ◌≡◌, refl, Bool, true, false, not, ◌&&◌, ◌||◌, if◌then◌else◌, Option, List, [], ◌∷◌,
  arith, all, Dict, has_key, insert, length, ltb, ◌==◌,
}
use notifyr.Failure.{Failure, http}
use notifyr.Pipeline.{Call, fails, DecoratorException, settle_exception}

-- SpecialKeyParameterConstant
abbrev pub meta_key : String
meta_key = "func_meta"

abbrev pub class_name_key : String
class_name_key = "class_name"

-- What a permission object or function gives back: the truth of its value, or an exception.
pub data Verdict {ℓ} (R : Type ℓ) : Type ℓ where
  decides : Bool → Verdict R
  defaults : DecoratorException R → Verdict R
  refuses : Failure → Verdict R

-- What UsePermission closes over: configService.SECURITY_FLAG, the name of the class, func.meta and
-- `default_error`.
pub record Setup {ℓ} (V : Type ℓ) : Type ℓ where
  pub security_flag : Bool
  pub class_name : V
  pub meta : V
  pub default_error : Option Failure

-- a permission as a function of the keyword arguments
abbrev pub Check : Type 0 → Type 0 → Type 0
Check V R = Dict V → Verdict R

module _ {V : Type 0} where
  -- SpecialKeyParameterConstant.… in kwargs
  abbrev pub has_special_key : Dict V → Bool
  has_special_key kwargs = has_key meta_key kwargs || has_key class_name_key kwargs

  -- kwargs_prime, which the permissions see
  abbrev pub kwargs_prime : Setup V → Dict V → Dict V
  kwargs_prime setup kwargs =
      insert meta_key setup.meta (insert class_name_key setup.class_name kwargs)

module _ {V R : Type 0} where
  -- The loop over the permissions, with what to do behind it.
  unfoldable pub permission_loop : Setup V → List (Check V R) → Dict V → Call R → Call R
  permission_loop setup [] kwargs rest = rest
  permission_loop setup (p ∷ ps) kwargs rest = elim (p kwargs) [
    | decides true ↦ permission_loop setup ps kwargs rest
    | decides false ↦ fails (http 403 "")
    | refuses failure ↦ fails failure
    | defaults e ↦ settle_exception (http 501 "") setup.default_error e
  ]

  unfoldable pub use_permission : Setup V → List (Check V R) → (Dict V → Call R) → Dict V → Call R
  use_permission setup [] function kwargs = function kwargs
  use_permission setup (p ∷ ps) function kwargs =
      if not setup.security_flag
      then function kwargs
      else if ltb (length kwargs) 1
      then fails (http 501 "")
      else if has_special_key kwargs
      then fails (http 400 "special key used")
      else permission_loop setup (p ∷ ps) (kwargs_prime setup kwargs) (function kwargs)

  abbrev pub allows : Dict V → Check V R → Bool
  allows kwargs p = elim (p kwargs) [ decides b ↦ b | defaults _ ↦ false | refuses _ ↦ false ]

  -- When a call goes on to the function, told without the loop.
  abbrev pub is_permitted : Setup V → List (Check V R) → Dict V → Bool
  is_permitted setup ps kwargs =
      not setup.security_flag
      || (length ps == 0)
      || (ltb 0 (length kwargs)
          && not (has_special_key kwargs)
          && all (allows (kwargs_prime setup kwargs)) ps)

  permission_loop-allowed :
      (setup : Setup V) (ps : List (Check V R)) (kwargs : Dict V) (rest : Call R)
      → all (allows kwargs) ps ≡ true
      → permission_loop setup ps kwargs rest ≡ rest
  unfolding permission_loop
  permission_loop-allowed setup [] kwargs rest h = refl
  permission_loop-allowed setup (p ∷ ps) kwargs rest h =
      ground (arith, permission_loop-allowed setup ps kwargs rest)

  permission_loop-refused :
      (setup : Setup V) (ps : List (Check V R)) (kwargs : Dict V) (a b : Call R)
      → all (allows kwargs) ps ≡ false
      → permission_loop setup ps kwargs a ≡ permission_loop setup ps kwargs b
  unfolding permission_loop
  permission_loop-refused setup [] kwargs a b h = cc
  permission_loop-refused setup (p ∷ ps) kwargs a b h =
      ground (arith, permission_loop-refused setup ps kwargs a b)

  -- A call goes on to the function with its own arguments where the security is off, there are no
  -- permissions, or there are arguments, none under a special key, and every permission allows them.
  -- In all other cases nothing that happens depends on the function.
  pub use_permission-permitted :
      (setup : Setup V) (ps : List (Check V R)) (kwargs : Dict V) (f g : Dict V → Call R)
      → (is_permitted setup ps kwargs ≡ true → use_permission setup ps f kwargs ≡ f kwargs)
        × (is_permitted setup ps kwargs ≡ false
            → use_permission setup ps f kwargs ≡ use_permission setup ps g kwargs)
  unfolding use_permission
  use_permission-permitted setup [] kwargs f g = (λ h. refl, λ h. ground arith)
  use_permission-permitted setup (p ∷ ps) kwargs f g = (
    λ h.
        ground
          (arith, permission_loop-allowed setup (p ∷ ps) (kwargs_prime setup kwargs) (f kwargs)),
    λ h. ground (
      arith,
      permission_loop-refused setup (p ∷ ps) (kwargs_prime setup kwargs) (f kwargs) (g kwargs),
    ),
  )
