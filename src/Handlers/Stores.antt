-- ===== src/Handlers/Stores.antt =====
-- app/decorators/handlers.py: the handlers of vault, files and caches, each as the table of its
-- except clauses in their order. A clause with two classes is a row for each of them; WatchError of
-- redis and redis.exceptions.WatchError are one class.
use notifyr.Base.{List, [], ◌∷◌}
use notifyr.Handlers.{Row, answer, by_code, echo, echo_arg_or, swallow}

-- VaultHandler
abbrev pub vault_handler : List Row
vault_handler =
    ("hvac.exceptions.InvalidRequest", answer 500 "")
    ∷ ("hvac.exceptions.Forbidden", answer 403 "")
    ∷ ("hvac.exceptions.Unauthorized", answer 401 "")
    ∷ ("requests.exceptions.ReadTimeout", answer 504 "Vault server did not respond in time")
    ∷ []

-- MiniServiceHandler
abbrev pub mini_service_handler : List Row
mini_service_handler =
    ("MiniServiceAlreadyExistsError", answer 409 "MiniService already exists")
    ∷ ("MiniServiceDoesNotExistsError", answer 404 "MiniService does not exist")
    ∷ ("MiniServiceCannotBeIdentifiedError", answer 400 "MiniService cannot be identified")
    ∷ []

-- S3Handler
abbrev pub s3_handler : List Row
s3_handler =
    ("S3Error", by_code 500 "S3 Service error occurred")
    ∷ ("ServerError", answer 500 "Failed to build S3 Service due to server error:")
    ∷ []

-- FileNamingHandler
abbrev pub file_naming_handler : List Row
file_naming_handler =
    ("AssetTypeNotAllowedError", answer 400 "Asset type not allowed for upload.")
    ∷ ("AssetTypeNotFoundError", answer 404 "Asset type not found.")
    ∷ (
      "MultipleExtensionError",
      answer 400 "Multiple file extensions detected; only one is allowed.",
    )
    ∷ (
      "ExtensionNotAllowedError",
      echo_arg_or 400 "The file extension is not allowed for this asset type.",
    )
    ∷ (
      "AssetConfusionError",
      answer 400 "XML asset filenames must start with either of those values ''. Received: ''",
    )
    ∷ []

-- UploadFileHandler
abbrev pub upload_file_handler : List Row
upload_file_handler =
    ("MaxFileLimitError", echo 400)
    ∷ ("DuplicateFileNameError", echo 400)
    ∷ ("InvalidExtensionError", echo 400)
    ∷ ("FileTooLargeError", echo 413)
    ∷ ("TotalFilesSizeExceededError", echo 413)
    ∷ []

-- FileHandler
abbrev pub file_handler : List Row
file_handler =
    ("PermissionError", answer 403 "Permission denied: You do not have access to this file.")
    ∷ (
      "IsADirectoryError",
      answer 400 "Invalid path: The specified path is a directory, not a file.",
    )
    ∷ ("FileNotFoundError", answer 404 "Resource not found:")
    ∷ ("OSError", answer 500 "An internal server error occurred while processing the file.")
    ∷ []

-- RedisHandler
abbrev pub redis_handler : List Row
redis_handler =
    ("redis.exceptions.AuthenticationError", answer 401 "Redis authentication failed")
    ∷ ("redis.exceptions.AuthorizationError", answer 403 "Redis authorization failed")
    ∷ ("redis.exceptions.ConnectionError", answer 503 "Redis service unavailable")
    ∷ ("redis.exceptions.TimeoutError", answer 504 "Redis request timed out")
    ∷ ("redis.exceptions.BusyLoadingError", answer 503 "Redis is loading data")
    ∷ ("redis.exceptions.ReadOnlyError", answer 503 "Redis is in read-only mode")
    ∷ ("redis.exceptions.OutOfMemoryError", answer 507 "Redis out of memory")
    ∷ ("redis.exceptions.ClusterDownError", answer 503 "Redis cluster is down")
    ∷ ("redis.exceptions.AskError", answer 503 "Redis cluster redirection error")
    ∷ ("redis.exceptions.MovedError", answer 503 "Redis cluster redirection error")
    ∷ ("redis.exceptions.NoScriptError", answer 500 "Redis Lua script not found")
    ∷ ("redis.exceptions.WatchError", answer 503 "Could not commit change to a key")
    ∷ ("redis.exceptions.DataError", answer 400 "Invalid data sent to Redis")
    ∷ ("redis.exceptions.ResponseError", echo 400)
    ∷ ("redis.exceptions.LockError", answer 409 "Redis lock error")
    ∷ []

-- MemCachedHandler
abbrev pub mem_cached_handler : List Row
mem_cached_handler =
    ("MemCachedTypeValueError", swallow)
    ∷ ("MemCacheNoValidKeysDefinedError", swallow)
    ∷ ("MemcacheClientError", swallow)
    ∷ ("MemcacheServerError", swallow)
    ∷ ("MemcacheUnexpectedCloseError", swallow)
    ∷ ("ValidationException", swallow)
    ∷ ("ClientException", swallow)
    ∷ []
