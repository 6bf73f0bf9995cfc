-- ===== src/Workflow.antt =====
-- control-plane/workflow-engine: the workflows that Temporal runs.
pub mod React
pub mod Hitl
