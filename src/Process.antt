-- ===== src/Process.antt =====
-- cmd and internal/modes: the two modes of the binary and how a process of it ends. The calls of
-- controller-runtime and client-go are parameters that may fail; the agent and the reconcilers that
-- are set up are those of NodeAgent and Controller.
pub mod Flags
pub mod Manager
pub mod Boot
pub mod Main
pub mod Settings
pub mod Plan
pub mod Booted
pub mod Exits
mod Tests
