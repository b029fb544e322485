-- ===== src/Handlers/Catalog.antt =====
-- app/decorators/handlers.py: all the handlers of the file, in its order.
use notifyr.Base.{List, [], ◌∷◌}
use notifyr.Handlers.{Row}
use notifyr.Handlers.Requests.{
  service_availability_handler, template_handler, web_socket_handler, celery_task_handler,
  twilio_handler, contacts_handler, security_client_handler, cost_handler,
}
use notifyr.Handlers.Records.{
  tortoise_handler, value_error_handler, motor_error_handler, orm_cache_handler, profile_handler,
  pydantic_handler, global_var_handler, fast_api_handler,
}
use notifyr.Handlers.Stores.{
  vault_handler, mini_service_handler, s3_handler, file_naming_handler, upload_file_handler,
  file_handler, redis_handler, mem_cached_handler,
}
use notifyr.Handlers.Work.{
  async_io_handler, reactive_handler, stream_data_parser_handler, celery_control_handler,
  arq_handler, aps_scheduler_handler, gateway_handler, llm_handler, agentic_handler, grpc_handler,
  graphiti_handler, data_ingest_handler, custom_schema_handler, embedding_handler,
}

abbrev pub handlers : List (List Row)
handlers =
    service_availability_handler ∷ template_handler ∷ web_socket_handler ∷ celery_task_handler
    ∷ twilio_handler ∷ contacts_handler ∷ tortoise_handler ∷ security_client_handler
    ∷ value_error_handler ∷ motor_error_handler ∷ async_io_handler ∷ reactive_handler
    ∷ stream_data_parser_handler ∷ orm_cache_handler ∷ fast_api_handler ∷ global_var_handler
    ∷ profile_handler ∷ pydantic_handler ∷ vault_handler ∷ mini_service_handler ∷ s3_handler
    ∷ file_naming_handler ∷ redis_handler ∷ mem_cached_handler ∷ cost_handler
    ∷ celery_control_handler ∷ arq_handler ∷ aps_scheduler_handler ∷ upload_file_handler
    ∷ file_handler ∷ gateway_handler ∷ llm_handler ∷ agentic_handler ∷ grpc_handler
    ∷ graphiti_handler ∷ data_ingest_handler ∷ custom_schema_handler ∷ embedding_handler ∷ []
