-- ===== src/Graph.antt =====
-- The graph engine: src/framework/graph-state.ts, graph-nodes.ts, graph-engine.ts and
-- graph-rollback.ts.
pub mod Flow
pub mod State
pub mod Nodes
pub mod Run
pub mod OneResult
pub mod Results
pub mod Rollback
pub mod Stacks
pub mod RollbackLaws
