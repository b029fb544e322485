-- ===== src/Handlers/Requests.antt =====
-- app/decorators/handlers.py: the handlers of requests, clients, templates and costs, each as the table of its
-- except clauses in their order.
use notifyr.Base.{List, [], ◌∷◌}
use notifyr.Handlers.{Row, answer, answer_either, bad_call, first_arg, swallow}

-- ServiceAvailabilityHandler
abbrev pub service_availability_handler : List Row
service_availability_handler =
    ("ServiceNotAvailableError", answer 500 "Service not available")
    ∷ ("MethodServiceNotAvailableError", answer 500 "Method service not available")
    ∷ ("MethodServiceNotExistsError", answer 500 "Method service does not exists")
    ∷ ("ServiceTemporaryNotAvailableError", answer 503 "Service temporary not available")
    ∷ ("ServiceNotImplementedError", answer 501 "Service not implemented")
    ∷ ("MethodServiceNotImplementedError", answer 501 "Method Service not implemented")
    ∷ ("StateProtocolMalFormattedError", answer 500 "State Protocol MalFormatted")
    ∷ ("ServiceDoesNotExistError", answer 500 "Service does not exists")
    ∷ []

-- TemplateHandler
abbrev pub template_handler : List Row
template_handler =
    ("AssetNotFoundError", answer 404 "Asset not found")
    ∷ ("TemplateNotFoundError", answer 404 "Template not found")
    ∷ ("TemplateInjectError", answer 500 "Error in the template")
    ∷ ("TemplateBuildError", answer 400 "Template build error")
    ∷ ("TemplateValidationError", first_arg 422 "Validation Error")
    ∷ ("TemplateFormatError", first_arg 422 "Template format is invalid")
    ∷ ("TemplateCreationError", first_arg 500 "Failed to create template")
    ∷ ("ValueError", answer 400 "Could not be able to properly display the value")
    ∷ ("SchemaValidationError", first_arg 500 "Validation Error")
    ∷ ("SkipTemplateCreationError", answer 400 "Couldnt create a template")
    ∷ []

-- WebSocketHandler
abbrev pub web_socket_handler : List Row
web_socket_handler = ("WSPathNotFoundError", answer 404 "WS Path Not Found") ∷ []

-- CeleryTaskHandler
abbrev pub celery_task_handler : List Row
celery_task_handler =
    ("CeleryTaskNotFoundError", answer 404 "")
    ∷ ("CeleryTaskNameNotExistsError", answer 404 "")
    ∷ ("CelerySchedulerOptionError", answer 400 "")
    ∷ ("CeleryRedisVisibilityTimeoutError", answer 406 "")
    ∷ ("CeleryNotAvailableError", answer 501 "")
    ∷ ("QueueNotFound", answer 404 "")
    ∷ ("AlreadyRegistered", answer 409 "")
    ∷ ("NotRegistered", answer 400 "")
    ∷ ("MaxRetriesExceededError", answer 500 "")
    ∷ ("AccessRefused", bad_call)
    ∷ []

-- TwilioHandler
abbrev pub twilio_handler : List Row
twilio_handler =
    ("TwilioPhoneNumberParseError", answer 400 "Twilio phone number parse error")
    ∷ ("TwilioCallBusyError", swallow)
    ∷ ("TwilioCallNoAnswerError", swallow)
    ∷ ("TwilioCallFailedError", swallow)
    ∷ ("TwilioRestException", answer 400 "Twilio REST API error")
    ∷ ("SSLError", answer 500 "SSL error")
    ∷ ("Timeout", answer 504 "Request timed out")
    ∷ []

-- ContactsHandler
abbrev pub contacts_handler : List Row
contacts_handler =
    ("ContactNotExistsError", answer 404 "The user:  specified does not exists")
    ∷ (
      "ContactAlreadyExistsError",
      answer 400 "Error could not create the user because info are already used",
    )
    ∷ ("ContactDoubleOptInAlreadySetError", answer 400 "Contact Double opt in is already set")
    ∷ ("ContactOptInCodeNotMatchError", answer 400 "Contact Opt in code does not match")
    ∷ ("ContactMissingInfoKeyError", answer 400 "Contact missing  info key")
    ∷ []

-- SecurityClientHandler
abbrev pub security_client_handler : List Row
security_client_handler =
    ("GroupAlreadyBlacklistedError", answer 400 "Group  is already blacklisted")
    ∷ ("CouldNotCreateRefreshTokenError", answer 500 "Could not create refresh token")
    ∷ ("CouldNotCreateAuthTokenError", answer 500 "Could not create auth token")
    ∷ ("SecurityIdentityNotResolvedError", answer 400 "Both group and client can't be None")
    ∷ ("GroupIdNotMatchError", answer 400 "Group ID does not match")
    ∷ ("ClientDoesNotExistError", answer 404 "Client does not exist")
    ∷ (
      "AlreadyBlacklistedClientError",
      answer_either 403 "Client is not blacklisted yet" "Client is already blacklisted",
    )
    ∷ ("ClientTokenHeaderNotProvidedError", answer 400 "Client token header not provided")
    ∷ ("AuthzIdMisMatchError", answer 403 "Authorization ID mismatch")
    ∷ []

-- CostHandler
abbrev pub cost_handler : List Row
cost_handler =
    ("PaymentFailedError", answer 502 "Payment gateway failure")
    ∷ ("InsufficientCreditsError", answer 402 "Insufficient credits to complete the purchase")
    ∷ ("InvalidPurchaseRequestError", answer 400 "Invalid purchase request")
    ∷ ("CreditDeductionFailedError", answer 409 "Credit deduction failed")
    ∷ ("CurrencyNotSupportedError", answer 400 "Currency not supported")
    ∷ (
      "CostDefinitionNotFoundError",
      answer 404 "Cost definition not found could not compute the request cost",
    )
    ∷ ("CostPlanNotFoundError", answer 404 "Product not found")
    ∷ ("CostLessThanZeroError", answer 500 "Trying to deduct credit but losing money instead")
    ∷ ("CostMoreThanZeroError", answer 500 "Trying to give credit but taking money instead:")
    ∷ ("CreditNotInPlanError", answer 404 "Credit does not appear in the plan")
    ∷ ("CostException", answer 500 "Cost processing error")
    ∷ []
