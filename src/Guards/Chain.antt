-- ===== src/Guards/Chain.antt =====
-- app/definition/_ressource.py, UseGuard: a route's guards run in order, and the first that does not
-- let the request through ends it.
use notifyr.Base.{◌≡◌, refl, ◌↔◌, true, false, List, [], ◌∷◌, ◌++◌, arith, All}
use notifyr.Failure.{Result, ok, raise, http}
use notifyr.Guards.{Answer}

-- The loop over the guards, each as the answer that it would give.
unfoldable pub use_guards : List Answer → Result (Unit {0})
use_guards [] = ok tt
use_guards (ok (true, message) ∷ guards) = use_guards guards
use_guards (ok (false, message) ∷ guards) = raise (http 401 message)
use_guards (raise e ∷ guards) = raise e

-- A guard lets the request through.
abbrev pub LetsThrough : Answer → Type 0
LetsThrough (ok (true, _)) = Unit
LetsThrough (ok (false, _)) = ⊥
LetsThrough (raise _) = ⊥

-- The handler is reached just when every guard lets the request through.
pub use_guards_iff : (guards : List Answer) → (use_guards guards ≡ ok tt) ↔ All LetsThrough guards
unfolding use_guards
use_guards_iff [] = ground arith
use_guards_iff (ok (true, message) ∷ guards) = ground (arith, use_guards_iff guards)
use_guards_iff (ok (false, message) ∷ guards) = ground arith
use_guards_iff (raise e ∷ guards) = ground arith

-- The guards before one that all let the request through do not change what happens from there on.
pub use_guards-append :
    (before after : List Answer)
    → All LetsThrough before
    → use_guards (before ++ after) ≡ use_guards after
unfolding use_guards
use_guards-append [] after h = refl
use_guards-append (ok (true, message) ∷ guards) after h = use_guards-append guards after h.1
use_guards-append (ok (false, message) ∷ guards) after h = absurd h.0
use_guards-append (raise e ∷ guards) after h = absurd h.0
