-- ===== src/Auth.antt =====
-- Who may call what: the tokens and their age (Token), the permission that the middleware builds
-- from a token (Permission), and the permission classes in front of the routes (Route, Client).
pub mod Token
pub mod Permission
pub mod Route
pub mod Client
mod Tests
