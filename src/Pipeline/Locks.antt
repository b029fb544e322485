-- ===== src/Pipeline/Locks.antt =====
-- app/definition/_ressource.py, LockService: which locks a call takes, and in which order.
use notifyr.Base.{
  String, Bool, true, false, not, ◌&&◌, if◌then◌else◌, Option, none, some, List, [], ◌∷◌, contains,
  All, Bool-cases, inl, inr,
}
use notifyr.Failure.{Result, raise, error}

pub data LockType : Type 0 where
  reader writer : LockType

-- A service, with the profiles of its mini services where it is a manager of those.
pub record Locked : Type 0 where
  pub name : String
  pub is_manager : Bool
  pub profiles : List String

-- The status lock of a service, or that of one of its mini services.
pub data Lock : Type 0 where
  of_service : String → Lock
  of_mini : String → String → Lock

-- A call: the locks that it takes, one inside of the other, and how it ends inside of them.
abbrev pub Run : Type 0 → Type 0
Run R = List (Lock × LockType) × Result R

-- The lock of the mini service under `profile`, as the code takes it.
unfoldable pub mini_lock : LockType → Locked → String → Lock × LockType
mini_lock reader s profile = (of_mini s.name profile, reader)
mini_lock writer s profile = (of_service s.name, writer)

abbrev inside : {R : Type 0} → Lock × LockType → Run R → Run R
inside lock run = (lock ∷ run.0, run.1)

module _ {R : Type 0} (lock_type mini_type : LockType) (as_manager : Bool)
    (profile : Option String) where
  -- The delegator of one service around what is inside of it.
  unfoldable pub lock_mini : Locked → Option String → Run R → Run R
  lock_mini s none run = ([], raise (error "ProfileNotSpecifiedError"))
  lock_mini s (some p) run =
      if not (contains p s.profiles)
      then ([], raise (error "ProfileTypeNotMatchRequest"))
      else inside (mini_lock mini_type s p) run

  -- LockService: the first service stands around the others.
  unfoldable pub lock_services : List Locked → Result R → Run R
  lock_services [] call = ([], call)
  lock_services (s ∷ ss) call =
      let rest = lock_services ss call in
      inside (of_service s.name, lock_type)
        (if as_manager && s.is_manager then lock_mini s profile rest else rest)

-- The lock of no mini service, or one for reading.
abbrev pub IsNoMiniWriter : Lock × LockType → Type 0
IsNoMiniWriter (of_mini _ _, writer) = ⊥
IsNoMiniWriter _ = Unit

mini_lock-IsNoMiniWriter :
    (t : LockType) (s : Locked) (p : String) → IsNoMiniWriter (mini_lock t s p)
unfolding mini_lock
mini_lock-IsNoMiniWriter reader s p = tt
mini_lock-IsNoMiniWriter writer s p = tt

lock_mini-IsNoMiniWriter :
    {R : Type 0} (lock_type mini_type : LockType) (as_manager : Bool) (profile : Option String)
    (s : Locked) (o : Option String) (run : Run R)
    → All IsNoMiniWriter run.0
    → All IsNoMiniWriter (lock_mini lock_type mini_type as_manager profile s o run).0
unfolding lock_mini
lock_mini-IsNoMiniWriter lock_type mini_type as_manager profile s none run h = tt
lock_mini-IsNoMiniWriter lock_type mini_type as_manager profile s (some p) run h =
    elim (Bool-cases (contains p s.profiles)) [
      | inl e ↦ rw e (mini_lock-IsNoMiniWriter mini_type s p, h)
      | inr e ↦ rw e tt
    ]

-- No call takes the lock of a mini service for writing, also where LockService asks for it.
pub lock_services-IsNoMiniWriter :
    {R : Type 0} (lock_type mini_type : LockType) (as_manager : Bool) (profile : Option String)
    (services : List Locked) (call : Result R)
    → All IsNoMiniWriter (lock_services lock_type mini_type as_manager profile services call).0
unfolding lock_services
lock_services-IsNoMiniWriter lock_type mini_type as_manager profile [] call = tt
lock_services-IsNoMiniWriter lock_type mini_type as_manager profile (s ∷ ss) call = (
  tt,
  go (as_manager && s.is_manager)
      (lock_services-IsNoMiniWriter lock_type mini_type as_manager profile ss call),
)
  where
    go :
        (b : Bool)
        → All IsNoMiniWriter (lock_services lock_type mini_type as_manager profile ss call).0
        → All IsNoMiniWriter
            (if b
              then lock_mini lock_type mini_type as_manager profile s profile
                  (lock_services lock_type mini_type as_manager profile ss call)
              else lock_services lock_type mini_type as_manager profile ss call).0
    go true h =
        lock_mini-IsNoMiniWriter lock_type mini_type as_manager profile s profile
          (lock_services lock_type mini_type as_manager profile ss call) h
    go false h = h
