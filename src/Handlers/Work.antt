-- ===== src/Handlers/Work.antt =====
-- app/decorators/handlers.py: the handlers of tasks, streams and agents, each as the table of its
-- except clauses in their order.
use notifyr.Base.{List, [], ◌∷◌}
use notifyr.Handlers.{Row, answer, echo, first_arg, own_status, second_arg}

-- AsyncIOHandler
abbrev pub async_io_handler : List Row
async_io_handler =
    ("asyncio.CancelledError", answer 500 "A Task was Cancelled")
    ∷ ("LockNotFoundError", answer 500 "Could not wait for the data input")
    ∷ ("TimeoutError", answer 408 "Timeout error")
    ∷ ("asyncio.TimeoutError", answer 408 "Request timed out")
    ∷ ("KeepAliveTimeoutError", first_arg 408 "Request timed out")
    ∷ []

-- ReactiveHandler
abbrev pub reactive_handler : List Row
reactive_handler = ("ReactiveSubjectNotFoundError", answer 404 "subject id not found") ∷ []

-- StreamDataParserHandler
abbrev pub stream_data_parser_handler : List Row
stream_data_parser_handler =
    ("SequentialStateError", answer 409 "Sequential state error during data stream:")
    ∷ ("ContinuousStateError", answer 422 "Continuous state error during data stream:")
    ∷ ("DataParsingError", answer 400 "Error parsing stream data:")
    ∷ ("ValidationDataError", answer 422 "Validation error in stream data:")
    ∷ []

-- CeleryControlHandler
abbrev pub celery_control_handler : List Row
celery_control_handler = []

-- ArqHandler
abbrev pub arq_handler : List Row
arq_handler =
    ("ResultNotFound", answer 404 "Result not found")
    ∷ ("JobDoesNotExistsError", echo 404)
    ∷ ("DataTaskNotFoundError", echo 400)
    ∷ ("JobAlreadyExistsError", echo 400)
    ∷ ("JobStatusNotValidError", answer 400 "")
    ∷ ("JobDequeueError", answer 409 "")
    ∷ ("UnexpectedJobStatusError", answer 500 "")
    ∷ ("JobInProgressError", answer 400 "Cannot abort job  in progress")
    ∷ []

-- APSSchedulerHandler
abbrev pub aps_scheduler_handler : List Row
aps_scheduler_handler = ("APSJobDoesNotExists", answer 404 "") ∷ []

-- GatewayHandler
abbrev pub gateway_handler : List Row
gateway_handler =
    ("aiohttp.ClientPayloadError", second_arg "Agentic gateway payload error")
    ∷ ("AgenticUnauthorizedError", answer 401 "Unauthorized to access agentic")
    ∷ ("AgenticNotFoundError", answer 404 "Agentic resource not found")
    ∷ ("AgenticClientError", own_status 400 "Agentic client error")
    ∷ ("AgenticGatewayError", own_status 502 "Agentic gateway error")
    ∷ ("AgenticTimeoutError", answer 504 "Timeout contacting agentic")
    ∷ ("AgenticConnectionError", answer 503 "Cannot connect to agentic")
    ∷ ("AgenticResponseValidationError", answer 502 "Invalid response from agentic")
    ∷ []

-- LLMHandler
abbrev pub llm_handler : List Row
llm_handler =
    ("LLMProviderDoesNotExistError", answer 404 "LLM provider '' does not exist")
    ∷ ("LLMModelNotPermittedError", answer 400 "Model '' not permitted for provider ''")
    ∷ ("LLMModelMaxTokenExceededError", answer 400 "Agent max tokens () exceeds LLM limit ()")
    ∷ (
      "LLMRateLimiterError",
      answer 429 "LLM provider rate limit exceeded. Please retry after some time.",
    )
    ∷ ("LLMConfigNotConfiguredError", answer 503 "LLM '' configuration is not available")
    ∷ []

-- AgenticHandler
abbrev pub agentic_handler : List Row
agentic_handler =
    ("AgenticServerDisconnectedError", echo 503)
    ∷ ("AgenticStreamDoneError", echo 503)
    ∷ ("AgenticBadResponseError", echo 502)
    ∷ ("AgenticGrpcIdleError", echo 503)
    ∷ ("AgenticGrpcShutdownError", echo 503)
    ∷ []

-- GrpcHandler
abbrev pub grpc_handler : List Row
grpc_handler = []

-- GraphitiHandler
abbrev pub graphiti_handler : List Row
graphiti_handler = []

-- DataIngestHandler
abbrev pub data_ingest_handler : List Row
data_ingest_handler =
    ("AgenticDatabaseNotAllowedError", answer 400 "Database '' is not allowed for this operation.")
    ∷ (
      "IngestConfigNotPresentError",
      answer 400 "'' Ingest configuration is not present for this operation.",
    )
    ∷ ("TaskIngestNameNotValidError", answer 500 "Task name '' is not valid for database ''.")
    ∷ []

-- CustomSchemaHandler
abbrev pub custom_schema_handler : List Row
custom_schema_handler =
    ("NoEntitiesCustomSchemaError", answer 400 "No valid entity definitions found in custom schema")
    ∷ ("NoEdgesCustomSchemaError", answer 400 "No valid edge definitions found in custom schema")
    ∷ []

-- EmbeddingHandler
abbrev pub embedding_handler : List Row
embedding_handler =
    ("EmptyVectorError", echo 400)
    ∷ ("VectorDimensionMismatchError", echo 400)
    ∷ ("ZeroMagnitudeError", echo 400)
    ∷ ("InvalidExportModeError", echo 400)
    ∷ ("EmbeddingException", answer 500 "An embedding operation failed")
    ∷ []
