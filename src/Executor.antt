-- ===== src/Executor.antt =====
-- src/executor: expressions on tuples, the dummy storage, and the iterators that a plan becomes.
pub mod Evaluator
pub mod Compare
pub mod Iterator
pub mod Pipeline
pub mod Execute
pub mod Statements
