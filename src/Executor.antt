-- ===== src/Executor.antt =====
-- executor: transactions on the state.
pub mod Transition
mod Examples
