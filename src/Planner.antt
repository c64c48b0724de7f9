-- ===== src/Planner.antt =====
-- src/planner: from statements to plans. src/planner/plan.h, src/planner/planner.cpp, the statement
-- structures of src/parser/statements and the expressions of src/executor/expr_defs.h.
pub mod Plan
pub mod Shape
