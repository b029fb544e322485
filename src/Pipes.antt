-- ===== src/Pipes.antt =====
-- app/decorators/pipes.py: pipes that check or complete what a route is called with, and the one that
-- sets the status of an offloaded task's response.
mod Laws
mod Tests
use notifyr.Base.{
  ℕ, suc, String, Bool, true, false, not, ◌&&◌, ◌||◌, if◌then◌else◌, Option, none, some, List, [],
  ◌∷◌, contains, str_eq, ltb,
}
use notifyr.Failure.{Result, ok, raise, http, error, attribute_error, ◌>>=◌}
use notifyr.TaskKind.{TaskType, is_now}

-- RelayPipe.pipe
unfoldable pub relay_pipe : Option String → Result String
relay_pipe none = raise (http 400 "Relay not specified")
relay_pipe (some relay) =
    if not (str_eq relay "sms") && not (str_eq relay "email")
    then raise (http 400 "Relay not allowed")
    else ok relay

-- ForceClientPipe.pipe and ForceGroupPipe.pipe
unfoldable pub force_client_pipe : {A : Type 0} → Option A → Result A
force_client_pipe none = raise (http 400 "Client information is missing or invalid.")
force_client_pipe (some client) = ok client

unfoldable pub force_group_pipe : {A : Type 0} → Option A → Result A
force_group_pipe none = raise (http 400 "Group information is missing or invalid.")
force_group_pipe (some group) = ok group

-- TwilioAccountMiniService.depService.model: the numbers of a profile
pub record Numbers : Type 0 where
  pub from_number : String
  pub twilio_otp_number : Option String
  pub twilio_chat_number : Option String
  pub twilio_automated_response_number : Option String

-- PhoneNumberChoice
pub data NumberChoice : Type 0 where
  default otp chat auto_mess : NumberChoice

-- TwilioPhoneNumberPipe.setFrom_, where the number is missing
unfoldable pub or_fallback : Bool → Numbers → Option String → Result String
or_fallback fallback model (some pn) = ok pn
or_fallback fallback model none =
    if fallback then ok model.from_number else raise (error "ServiceNotAvailableError")

unfoldable pub set_from : Bool → NumberChoice → Numbers → Result String
set_from fallback default model = ok model.from_number
set_from fallback otp model = or_fallback fallback model model.twilio_otp_number
set_from fallback chat model = or_fallback fallback model model.twilio_chat_number
set_from fallback auto_mess model =
    or_fallback fallback model model.twilio_automated_response_number

-- What OffloadedTaskResponsePipe reads of the task manager: meta['background'] and results.
pub record Manager (R : Type 0) : Type 0 where
  pub background : Bool
  pub results : R

module _ {R : Type 0} where
  -- OffloadedTaskResponsePipe._determine_async
  unfoldable pub determine_async : Option (Manager R) → Option Bool → Bool
  determine_async (some manager) background = manager.background
  determine_async none (some background) = background
  determine_async none none = false

  -- OffloadedTaskResponsePipe._process_result, where none is None
  unfoldable pub process_result : Option R → Option (Manager R) → Option R
  process_result none (some manager) = some manager.results
  process_result result _ = result

-- scheduler and scheduler.task_type != TaskType.NOW
abbrev pub is_scheduled : Option TaskType → Bool
is_scheduled none = false
is_scheduled (some t) = not (is_now t)

-- OffloadedTaskResponsePipe._set_status_code, for a response or None, the type of the scheduler's
-- task and an OTP model
unfoldable pub set_status_code : Bool → Option TaskType → Bool → Bool → Result ℕ
set_status_code has_response scheduler has_otp background =
    if not has_response
    then raise attribute_error
    else ok (if is_scheduled scheduler || (has_otp && background) || background then 201 else 200)

-- OffloadedTaskResponsePipe.pipe, as the result and the status of the response
unfoldable pub offloaded_pipe :
    {R : Type 0}
    → Bool
    → Option R
    → Option TaskType
    → Bool
    → Option (Manager R)
    → Option Bool
    → Result (Option R × ℕ)
offloaded_pipe has_response result scheduler has_otp manager background =
    set_status_code has_response scheduler has_otp (determine_async manager background)
    >>= λ status. ok (process_result result manager, status)

-- A content of a scheduler, with its index.
pub record Content : Type 0 where
  pub name : String
  pub index : Option ℕ

abbrev pub index_or : ℕ → Option ℕ → ℕ
index_or i none = i
index_or i (some own) = own

-- The loop of ContentIndexPipe.pipe, from position i on.
unfoldable pub index_contents : ℕ → List Content → List Content
index_contents i [] = []
index_contents i (c ∷ cs) =
    record c { index = some (index_or i c.index) } ∷ index_contents (suc i) cs

-- ContentIndexPipe.pipe, with meta['split']
unfoldable pub content_index_pipe : Bool → List Content → List Content
content_index_pipe split contents = if split then contents else index_contents 0 contents
