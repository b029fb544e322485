-- ===== src/Cost.antt =====
-- Credits: the bill that a request builds (Bill), what redis is asked to do with it (Wallet), the
-- price of a task (Price), the gate in front of a task (Gate), and the interceptors that join them
-- (Intercept).
pub mod Bill
pub mod Wallet
pub mod Price
pub mod Gate
pub mod Intercept
pub mod Merchant
mod Tests
