-- ===== src/KeepAlive/Collects.antt =====
-- app/manager/keep_alive_manager.py: what a request has collected when it is answered.
use notifyr.Base.{
  String, ◌≡◌, refl, ◌∙◌, Bool, true, false, not, ◌&&◌, ◌||◌, Option, none, some, List, [], ◌∷◌,
  str_eq, eq_iff, contains, Dict, has_key, insert, lookup-insert, arith, inl, inr, Bool-cases,
}
use notifyr.Failure.{Result, ok, raise}
use notifyr.KeepAlive.{
  StreamType, continuous, sequential, remove_state, last_state, pop_state, up_state, StreamData,
  KeepAlive, Signal, next, fails, completes, after_up, take_content, take_state, on_next, notify,
  notify_all, Wait, expires, wakes, new_manager,
}

contains-remove_state :
    (k s : String) (xs : List String)
    → contains s xs ≡ true
    → contains k xs ≡ (contains k (remove_state s xs) || str_eq s k)
unfolding remove_state
contains-remove_state k s [] h = cc
contains-remove_state k s (x ∷ xs) h =
    ground (arith, eq_iff x s, eq_iff x k, eq_iff s k, contains-remove_state k s xs, h)

contains-pop_state :
    (k s : String) (xs : List String)
    → contains k (s ∷ xs) ≡ (contains k (pop_state s xs) || str_eq (last_state s xs) k)
unfolding pop_state last_state
contains-pop_state k s [] = ground arith
contains-pop_state k s (x ∷ xs) = ground (arith, contains-pop_state k x xs)

has_key-insert :
    {A : Type 0} (k s : String) (d : A) (value : Dict A)
    → has_key k (insert s d value) ≡ (str_eq s k || has_key k value)
has_key-insert k s d value = ground (arith, lookup-insert s k d value, eq_iff s k)

up_state-contains :
    (type : StreamType) (s : String) (xs ys : List String)
    → up_state type s xs ≡ ok ys
    → contains s xs ≡ true
    → (k : String) → contains k xs ≡ (contains k ys || str_eq s k)
unfolding up_state
up_state-contains continuous s xs ys e h k = ground (arith, contains-remove_state k s xs h)
up_state-contains sequential s [] ys e h k = cc
up_state-contains sequential s (x ∷ xs) ys e h k =
    ground (arith, contains-pop_state k x xs, eq_iff (last_state x xs) s)

up_state-ignores :
    (type : StreamType) (s : String) (xs ys : List String)
    → up_state type s xs ≡ ok ys
    → contains s xs ≡ false
    → ys ≡ xs
unfolding up_state
up_state-ignores continuous s xs ys e h = ground arith
up_state-ignores sequential s [] ys e h = ground arith
up_state-ignores sequential s (x ∷ xs) ys e h = ground arith

abbrev implies : Bool → Bool → Bool
implies a b = not a || b

module _ {A : Type 0} where
  -- A state is still to come, or its content is there, exactly if the parser was made for it.
  abbrev pub Collects : List String → List String → Dict A → Type 0
  Collects all left value =
      (k : String)
      → (implies (contains k left) (contains k all)
          && (implies (has_key k value) (contains k all)
              && implies (contains k all) (has_key k value || contains k left)))
        ≡ true

  up_state-Collects :
      (type : StreamType) (s : String) (d : A) (all xs ys : List String) (value : Dict A)
      → up_state type s xs ≡ ok ys
      → contains s xs ≡ true
      → Collects all xs value
      → Collects all ys (insert s d value)
  up_state-Collects type s d all xs ys value e h c k = ground (
    arith,
    c k,
    c s,
    up_state-contains type s xs ys e h k,
    has_key-insert k s d value,
    eq_iff s k,
  )

  insert-Collects :
      (s : String) (d : A) (all xs : List String) (value : Dict A)
      → contains s xs ≡ true
      → Collects all xs value
      → Collects all xs (insert s d value)
  insert-Collects s d all xs value h c k =
      ground (arith, c k, c s, has_key-insert k s d value, eq_iff s k)

  abbrev pub Holds : List String → KeepAlive A → Type 0
  Holds all self = Collects all self.parser.state self.value

  after_up-Holds :
      (all ys : List String) (r : Result (List String)) (self : KeepAlive A)
      → Holds all self
      → ((ys : List String) → r ≡ ok ys → Collects all ys self.value)
      → Holds all (after_up r self)
  after_up-Holds all ys (ok states) self c h = h states refl
  after_up-Holds all ys (raise e) self c h = c

  take_content-Holds :
      (all : List String) (s : String) (content : Option A) (self : KeepAlive A)
      → contains s self.parser.state ≡ true
      → Holds all self
      → Holds all (take_content s content self)
  take_content-Holds all s none self h c = c
  take_content-Holds all s (some d) self h c =
      let xs = self.parser.state in
      after_up-Holds all xs (up_state self.parser.type s xs)
        (record self { value = insert s d self.value }) (insert-Collects s d all xs self.value h c)
        (λ ys e. up_state-Collects self.parser.type s d all xs ys self.value e h c)

  take_state-Holds :
      (all : List String) (state : Option String) (content : Option A) (self : KeepAlive A)
      → Holds all self
      → Holds all (take_state state content self)
  take_state-Holds all none content self c = c
  take_state-Holds all (some s) content self c =
      let xs = self.parser.state in
      elim (Bool-cases (contains s xs)) [
        | inl h ↦ rw h (take_content-Holds all s content self h c)
        | inr h ↦ rw h (
            after_up-Holds all xs (up_state self.parser.type s xs) self c
              (λ ys e. rw (up_state-ignores self.parser.type s xs ys e h) c))
      ]

  notify-Holds :
      (all : List String) (signal : Signal A) (self : KeepAlive A)
      → Holds all self
      → Holds all (notify signal self)
  unfolding notify on_next
  notify-Holds all (next v) self c = take_state-Holds all v.state v.content self c
  notify-Holds all (fails e) self c = c
  notify-Holds all completes self c = c

  pub notify_all-Holds :
      (all : List String) (signals : List (Signal A)) (self : KeepAlive A)
      → Holds all self
      → Holds all (notify_all signals self)
  unfolding notify_all
  notify_all-Holds all [] self c = c
  notify_all-Holds all (s ∷ signals) self c =
      notify_all-Holds all signals (notify s self) (notify-Holds all s self c)

  -- Nobody completes the subject.
  abbrev pub stays_open : List (Signal A) → Bool
  stays_open [] = true
  stays_open (completes ∷ signals) = false
  stays_open (next _ ∷ signals) = stays_open signals
  stays_open (fails _ ∷ signals) = stays_open signals

  abbrev pub all_open : List (Wait A) → Bool
  all_open [] = true
  all_open (expires ∷ rounds) = all_open rounds
  all_open (wakes signals _ ∷ rounds) = stays_open signals && all_open rounds

  on_next-completed_ :
      (v : StreamData A) (self : KeepAlive A)
      → (on_next v self).parser.completed_ ≡ self.parser.completed_
  unfolding on_next
  on_next-completed_ v self = ground arith

  pub notify_all-completed_ :
      (signals : List (Signal A)) (self : KeepAlive A)
      → stays_open signals ≡ true
      → (notify_all signals self).parser.completed_ ≡ self.parser.completed_
  unfolding notify_all notify
  notify_all-completed_ [] self h = refl
  notify_all-completed_ (next v ∷ signals) self h =
      notify_all-completed_ signals (on_next v self) h ∙ on_next-completed_ v self
  notify_all-completed_ (fails e ∷ signals) self h =
      notify_all-completed_ signals (record self { failure = some e }) h
  notify_all-completed_ (completes ∷ signals) self h = cc

pub new_manager-Holds :
    (A : Type 0) (type : StreamType) (all : List String) → Holds all (new_manager {A = A} type all)
unfolding new_manager
new_manager-Holds A type all k = ground arith
