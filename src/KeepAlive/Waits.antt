-- ===== src/KeepAlive/Waits.antt =====
-- app/manager/keep_alive_manager.py: what a request is answered.
use notifyr.Base.{
  ℕ, ◌+◌, ◌-◌, ◌≤◌, ◌⊎◌, String, ◌≡◌, refl, ◌∙◌, Bool, true, false, Option, none, some, List, [],
  ◌∷◌, contains, is_empty, ltb, Dict, has_key, arith, inl, inr, Bool-cases,
}
use notifyr.Failure.{Failure, ok, raise, Result-cases}
use notifyr.KeepAlive.{
  StreamType, up_state, completed, StreamDataParser, KeepAlive, next, on_next, notify, notify_all,
  Wait, expires, wakes, Answer, answers, conclude, wait_loop, new_manager,
}
use notifyr.KeepAlive.Collects.{
  Collects, Holds, notify_all-Holds, stays_open, all_open, notify_all-completed_, new_manager-Holds,
}

completed-empty :
    (p : StreamDataParser) (ys : List String)
    → p.state ≡ ys
    → is_empty ys ≡ true
    → completed p ≡ true
unfolding completed
completed-empty p ys e h = ground (arith, e, h)

module _ {A : Type 0} where
  -- The value of an answer has a content for each state that the parser was made for, and no other.
  abbrev pub IsWhole : List String → Answer A → Type 0
  IsWhole all (answers value) = (k : String) → has_key k value ≡ contains k all
  IsWhole all _ = Unit

  nothing_left :
      (all xs : List String) (value : Dict A)
      → is_empty xs ≡ true
      → Collects all xs value
      → IsWhole all (answers value)
  nothing_left all [] value h c k = ground (arith, c k)
  nothing_left all (x ∷ xs) value h c k = cc

  conclude-IsWhole :
      (all : List String) (f : Option Failure) (done late : Bool) (value : Dict A) (rest : Answer A)
      → (done ≡ true → IsWhole all (answers value))
      → IsWhole all rest
      → IsWhole all (conclude f done late value rest)
  conclude-IsWhole all (some e) done late value rest h r = tt
  conclude-IsWhole all none true late value rest h r = h refl
  conclude-IsWhole all none false true value rest h r = tt
  conclude-IsWhole all none false false value rest h r = r

  completed-nothing_left :
      (all : List String) (self : KeepAlive A)
      → self.parser.completed_ ≡ false
      → Holds all self
      → completed self.parser ≡ true
      → IsWhole all (answers self.value)
  unfolding completed
  completed-nothing_left all self p c h =
      nothing_left all self.parser.state self.value (ground (arith, p, h)) c

  wait_loop-IsWhole :
      (all : List String) (rounds : List (Wait A)) (timeout : ℕ) (self : KeepAlive A)
      → all_open rounds ≡ true
      → self.parser.completed_ ≡ false
      → Holds all self
      → IsWhole all (wait_loop rounds timeout self)
  unfolding wait_loop
  wait_loop-IsWhole all [] timeout self o p c = tt
  wait_loop-IsWhole all (expires ∷ rounds) timeout self o p c = tt
  wait_loop-IsWhole all (wakes signals delta ∷ rounds) timeout self o p c =
      let after = notify_all signals self in
      let now_open : stays_open signals ≡ true = ground (arith, o) in
      let later_open : all_open rounds ≡ true = ground (arith, o) in
      let open_still = notify_all-completed_ signals self now_open ∙ p in
      let kept = notify_all-Holds all signals self c in
      conclude-IsWhole all after.failure (completed after.parser) (ltb timeout delta) after.value
        (wait_loop rounds (timeout - delta) after)
        (completed-nothing_left all after open_still kept)
        (wait_loop-IsWhole all rounds (timeout - delta) after later_open open_still kept)

  -- Messages that a parser takes one after the other, up to its last state.
  abbrev pub in_order : StreamType → List String → List (String × A × ℕ) → Bool
  in_order type xs [] = is_empty xs
  in_order type xs ((s, _, _) ∷ ms) = elim (up_state type s xs) [
    | ok ys ↦ in_order type ys ms
    | raise _ ↦ false
  ]

  -- Each wakes the request, after the time that it took.
  abbrev pub told : List (String × A × ℕ) → List (Wait A)
  told [] = []
  told ((s, d, delta) ∷ ms) =
      wakes (next record { state = some s; content = some d } ∷ []) delta ∷ told ms

  abbrev pub time_of : List (String × A × ℕ) → ℕ
  time_of [] = 0
  time_of ((_, _, delta) ∷ ms) = delta + time_of ms

  abbrev pub IsAnswered : Answer A → Type 0
  IsAnswered (answers _) = Unit
  IsAnswered _ = ⊥

  -- A message that the parser takes leaves no error.
  on_next-takes :
      (s : String) (d : A) (self : KeepAlive A) (ys : List String)
      → up_state self.parser.type s self.parser.state ≡ ok ys
      → let after = on_next record { state = some s; content = some d } self in
        (after.failure ≡ none) × (after.parser ≡ record (self.parser) { state = ys })
  unfolding on_next
  on_next-takes s d self ys h = ground (arith, h)

  conclude-IsAnswered :
      (f : Option Failure) (done late : Bool) (value : Dict A) (rest : Answer A)
      → f ≡ none
      → late ≡ false
      → (done ≡ true) ⊎ IsAnswered rest
      → IsAnswered (conclude f done late value rest)
  conclude-IsAnswered (some e) done late value rest h l r = cc
  conclude-IsAnswered none true late value rest h l r = tt
  conclude-IsAnswered none false true value rest h l r = cc
  conclude-IsAnswered none false false value rest h l (inl e) = cc
  conclude-IsAnswered none false false value rest h l (inr r) = r

  told-IsAnswered :
      (ms : List (String × A × ℕ)) (timeout : ℕ) (self : KeepAlive A)
      → is_empty ms ≡ false
      → in_order self.parser.type self.parser.state ms ≡ true
      → time_of ms ≤ timeout
      → IsAnswered (wait_loop (told ms) timeout self)
  unfolding wait_loop notify_all notify
  told-IsAnswered [] timeout self n o t = cc
  told-IsAnswered ((s, d, delta) ∷ ms) timeout self n o t =
      let after = on_next record { state = some s; content = some d } self in
      let late : ltb timeout delta ≡ false = ground (arith, t) in
      elim (Result-cases (up_state self.parser.type s self.parser.state)) [
        | inr (e, h) ↦ ground (arith, o, h)
        | inl (ys, h) ↦
            let (no_failure, parser) = on_next-takes s d self ys h in
            conclude-IsAnswered after.failure (completed after.parser) (ltb timeout delta)
              after.value (wait_loop (told ms) (timeout - delta) after) no_failure late
              (elim (Bool-cases (is_empty ms)) [
                | inl last ↦ inl (
                    completed-empty after.parser ys (ground (arith, parser))
                      (ended ms ys last (ground (arith, o, h))))
                | inr more ↦ inr (
                    told-IsAnswered ms (timeout - delta) after more (ground (arith, o, h, parser))
                      (omega (arith, t)))
              ])
      ]
    where
      ended :
          (ms : List (String × A × ℕ)) (ys : List String)
          → is_empty ms ≡ true
          → in_order self.parser.type ys ms ≡ true
          → is_empty ys ≡ true
      ended [] ys e h = h
      ended (m ∷ ms) ys e h = cc

  told-all_open : (ms : List (String × A × ℕ)) → all_open (told ms) ≡ true
  told-all_open [] = refl
  told-all_open (m ∷ ms) = told-all_open ms

  -- While nobody completes the subject, whatever it tells and however long it takes: if the request is
  -- answered, its value has a content for each state of the parser, and for no other.
  pub wait_loop-collected :
      (type : StreamType) (all : List String) (rounds : List (Wait A)) (timeout : ℕ)
      → all_open rounds ≡ true
      → IsWhole all (wait_loop rounds timeout (new_manager type all))
  unfolding new_manager
  wait_loop-collected type all rounds timeout o =
      wait_loop-IsWhole all rounds timeout (new_manager type all) o refl
        (new_manager-Holds A type all)

  -- If the parser takes some messages one after the other, up to its last state, and they come within
  -- the timeout, the request is answered, with a content for each state of the parser and no other.
  pub wait_loop-IsAnswered :
      (type : StreamType) (all : List String) (ms : List (String × A × ℕ)) (timeout : ℕ)
      → is_empty ms ≡ false
      → in_order type all ms ≡ true
      → time_of ms ≤ timeout
      → let answer = wait_loop (told ms) timeout (new_manager type all) in
        IsAnswered answer × IsWhole all answer
  unfolding new_manager
  wait_loop-IsAnswered type all ms timeout n o t = (
    told-IsAnswered ms timeout (new_manager type all) n o t,
    wait_loop-collected type all (told ms) timeout (told-all_open ms),
  )
