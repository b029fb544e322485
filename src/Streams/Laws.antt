-- ===== src/Streams/Laws.antt =====
-- What holds of the handlers of streams.
pub mod Batches
pub mod Visits
pub mod Statuses
pub mod Losses
