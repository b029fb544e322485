-- ===== src/KeepAlive/Subjects.antt =====
-- ReactiveService and ReactiveSubject of app/services/reactive_service.py, and register_subject,
-- create_subject, register_lock and dispose of KeepAliveManager. reactivex is not modelled: a
-- subscription is noted by the id of its subject.
use notifyr.Base.{
  String, Bool, true, false, Option, none, some, List, [], ◌∷◌, ◌++◌, if◌then◌else◌, contains, Dict,
  lookup, has_key, insert, remove,
}
use notifyr.Failure.{Result, ok, raise, error, key_error, value_error, attribute_error, ◌>>=◌}

-- The locks of a subject by request, and whether each is taken.
abbrev pub Locks : Type 0
Locks = Dict Bool

unfoldable pub register_lock : String → Locks → Locks
register_lock x_request_id locks = insert x_request_id true locks

unfoldable pub lock_lock : String → Locks → Result Locks
lock_lock x_request_id locks =
    if has_key x_request_id locks
    then ok (insert x_request_id true locks)
    else raise (error "LockNotFoundError")

unfoldable pub dispose_lock : String → Locks → Locks
dispose_lock x_request_id locks = remove x_request_id locks

-- The end of on_next, on_error and on_completed of a subject.
unfoldable pub release_all : Locks → Locks
release_all [] = []
release_all ((request, _) ∷ locks) = (request, false) ∷ release_all locks

-- `_subscriptions`
abbrev pub Subjects : Type 0
Subjects = Dict Locks

abbrev pub given_id : Option String → Result String
given_id none = raise value_error
given_id (some id) = ok id

-- create_subject; the id of a plain subject is generated.
unfoldable pub create_subject :
    Bool → String → Option String → Subjects → Result (String × Subjects)
create_subject plain generated given subjects =
    (if plain then ok generated else given_id given) >>= λ id.
    if has_key id subjects
    then raise (error "ReactiveSubjectAlreadyExist")
    else ok (id, insert id [] subjects)

-- `subjects[subject_id]`
unfoldable pub get_subject : String → Subjects → Result Locks
get_subject id subjects = elim (lookup id subjects) [
  | none ↦ raise (error "ReactiveSubjectNotFoundError")
  | some locks ↦ ok locks
]

-- delete_subject; what on_completed tells the subscribers is a Signal of the parent.
unfoldable pub delete_subject : String → Subjects → Result Subjects
delete_subject id subjects = get_subject id subjects >>= λ _. ok (remove id subjects)

-- What a manager knows of the subjects: its own, the others, and the ids that it has subscribed to.
pub record Subscriber : Type 0 where
  pub rx_subject : Option String
  pub subject_list : List String
  pub subscription : List String

unfoldable pub register_subject : String → Bool → Subjects → Subscriber → Result Subscriber
register_subject id only_subject subjects self = get_subject id subjects >>= λ _. ok (
    if only_subject
    then record self { rx_subject = some id; subscription = id ∷ self.subscription }
    else record self {
      subject_list = self.subject_list ++ (id ∷ []);
      subscription = id ∷ self.subscription;
    })

-- register_lock of the manager, for its own subject or for another one.
unfoldable pub lock_request : String → Option String → Subjects → Subscriber → Result Subjects
lock_request x_request_id none subjects self = elim self.rx_subject [
  | none ↦ raise attribute_error
  | some id ↦ get_subject id subjects >>= λ locks.
      ok (insert id (register_lock x_request_id locks) subjects)
]
lock_request x_request_id (some id) subjects self =
    get_subject id subjects >>= λ locks. ok (insert id (register_lock x_request_id locks) subjects)

-- The loop of dispose over subject_list.
unfoldable pub dispose_locks : String → List String → Subjects → Subjects
dispose_locks x_request_id [] subjects = subjects
dispose_locks x_request_id (id ∷ ids) subjects =
    dispose_locks x_request_id ids (elim (lookup id subjects) [
      | none ↦ subjects
      | some locks ↦ insert id (dispose_lock x_request_id locks) subjects
    ])

unfoldable pub dispose : String → Subjects → Subscriber → Result Subjects
dispose x_request_id subjects self =
    let after = dispose_locks x_request_id self.subject_list subjects in
    elim self.rx_subject [
      | none ↦ ok after
      | some id ↦ if contains id self.subscription then delete_subject id after else raise key_error
    ]
