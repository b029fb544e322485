-- ===== src/Guards.antt =====
-- app/decorators/guards.py: what each guard answers, and how `UseGuard` of
-- app/definition/_ressource.py runs a route's guards in order. The tables that a guard reads come as
-- parameters: the rows that the database has, the ids that a store holds.
pub mod Clients
pub mod Uploads
pub mod Models
pub mod Chain
mod Tests
use notifyr.Base.{String, Bool, true, false}
use notifyr.Failure.{Result, ok}

-- What a guard returns: a flag and a message.
abbrev pub Answer : Type 0
Answer = Result (Bool × String)

abbrev pub pass : Answer
pass = ok (true, "")

abbrev pub refuse : String → Answer
refuse message = ok (false, message)
