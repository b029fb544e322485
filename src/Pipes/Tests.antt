-- ===== src/Pipes/Tests.antt =====
-- Concrete calls of pipes.
use notifyr.Base.{String, ◌≡◌, refl, true, false, none, some, List, [], ◌∷◌}
use notifyr.Failure.{ok, raise, error}
use notifyr.Pipes.{
  Content, index_contents, content_index_pipe, Manager, Numbers, otp, set_from, or_fallback,
  relay_pipe,
}

abbrev contents : List Content
contents =
    record { name = "a"; index = none }
    ∷ record { name = "b"; index = some 7 }
    ∷ record { name = "c"; index = none }
    ∷ []

indexed :
    content_index_pipe false contents
    ≡ record { name = "a"; index = some 0 }
      ∷ record { name = "b"; index = some 7 }
      ∷ record { name = "c"; index = some 2 }
      ∷ []
unfolding content_index_pipe index_contents
indexed = refl

abbrev manager : Manager String
manager = record { background = true; results = "queued" }

abbrev numbers : Numbers
numbers = record {
  from_number = "+1";
  twilio_otp_number = none;
  twilio_chat_number = some "+2";
  twilio_automated_response_number = none;
}

no_number : set_from false otp numbers ≡ raise (error "ServiceNotAvailableError")
unfolding set_from or_fallback
no_number = refl

no_relay : relay_pipe (some "email") ≡ ok "email"
unfolding relay_pipe
no_relay = refl
