-- ===== src/Prelude/Trace.antt =====
-- Reasoning about the calls of a run: which calls it makes (`Emits`), and what has happened before
-- each of them (`Traced`).
mod Made
mod Before
mod Rules
mod Frame
mod Finish
mod Quiet
pub use Made.*
pub use Before.*
pub use Rules.*
pub use Frame.*
pub use Finish.*
pub use Quiet.*
