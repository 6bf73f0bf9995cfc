-- ===== src/LlmRouter.antt =====
-- execution-plane/llm-router/src/index.ts: the service that calls the language models.
pub mod Fallback
pub mod Streaming
mod Tests
