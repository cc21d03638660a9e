-- ===== src/Runtime/Handlers.antt =====
-- What the handlers of local texts and remote messages do to the log, the clipboard and the windows.
pub mod Recorded
pub mod Writes
pub mod Duplicates
pub mod Retries
pub mod FanOut
pub mod Publication
pub mod Loops
pub mod Held
