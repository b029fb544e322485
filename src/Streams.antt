-- ===== src/Streams.antt =====
-- The streams of events that redis keeps: the handlers of app/callback and the consumer of
-- app/services/database/redis_service.py. Redis, the ORM and the database are parameters.
pub mod Batch
pub mod Links
pub mod Emails
pub mod Messages
pub mod Contacts
pub mod Calls
pub mod Consumer
pub mod Laws
mod Tests
