-- ===== src/Handlers/Records.antt =====
-- app/decorators/handlers.py: the handlers of the databases and of profiles, each as the table of its
-- except clauses in their order.
use notifyr.Base.{List, [], ◌∷◌}
use notifyr.Handlers.{Row, answer, answer_either, document_or, echo, echo_arg, first_arg}

-- TortoiseHandler
abbrev pub tortoise_handler : List Row
tortoise_handler =
    ("OperationalError", first_arg 500 "Database execution error")
    ∷ ("ValidationError", first_arg 400 "Validation error")
    ∷ ("DBConnectionError", first_arg 500 "Database connection error")
    ∷ ("IntegrityError", first_arg 409 "Integrity error")
    ∷ ("DoesNotExist", first_arg 404 "Record not found")
    ∷ ("MultipleObjectsReturned", first_arg 500 "Multiple objects returned")
    ∷ ("TransactionManagementError", first_arg 500 "Transaction management error")
    ∷ ("UnSupportedError", first_arg 400 "Unsupported operation")
    ∷ ("ConfigurationError", first_arg 500 "Configuration error")
    ∷ ("ParamsError", first_arg 400 "Parameters error")
    ∷ ("BaseORMException", first_arg 500 "ORM error")
    ∷ []

-- ValueErrorHandler
abbrev pub value_error_handler : List Row
value_error_handler = ("ValueError", echo_arg 422) ∷ []

-- MotorErrorHandler
abbrev pub motor_error_handler : List Row
motor_error_handler =
    ("DocumentDoesNotExistsError", answer 404 "Document with id '' does not exists")
    ∷ ("DocumentPrimaryKeyConflictError", answer 409 "Document with ': ' already exists")
    ∷ (
      "DocumentExistsUniqueConstraintError",
      answer_either 400 "The document with the values entered already exists"
          "The document with the values entered does not exists",
    )
    ∷ ("DocumentAddConditionError", echo 400)
    ∷ ("DocumentConditionWrongMethodError", answer 500 "Document condition method is wrong")
    ∷ ("DocumentDoesNotExistsError", answer 404 "Document with id '' does not exists")
    ∷ []

-- ORMCacheHandler
abbrev pub orm_cache_handler : List Row
orm_cache_handler = []

-- ProfileHandler
abbrev pub profile_handler : List Row
profile_handler =
    ("ProfileModelTypeDoesNotExistsError", answer 404 "")
    ∷ ("ProfileNotAvailableError", answer 406 "")
    ∷ ("ProfileHasNotCapabilitiesError", answer 400 "")
    ∷ ("ProfileDoesNotExistsError", answer 404 "")
    ∷ ("ProfileNotSpecifiedError", answer 400 "")
    ∷ ("ProfileModelRequestBodyError", echo 422)
    ∷ ("ProfileTypeNotMatchRequest", document_or 404)
    ∷ []

-- PydanticHandler
abbrev pub pydantic_handler : List Row
pydantic_handler = ("PydanticValidationError", echo 422) ∷ []

-- GlobalVarHandler
abbrev pub global_var_handler : List Row
global_var_handler =
    ("GlobalKeyAlreadyExistsError", answer 406 "Key '' already exists")
    ∷ ("GlobalKeyDoesNotExistsError", answer 404 "Key '' does not exists or it is not a JSON")
    ∷ []

-- FastAPIHandler
abbrev pub fast_api_handler : List Row
fast_api_handler = ("ResponseValidationError", answer 500 "Error while sending the response") ∷ []
