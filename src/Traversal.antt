-- ===== src/Traversal.antt =====
-- `traverse` of internal/server/workflow/engine.go: the outbound flows of an element whose conditions
-- hold are sent, and a divergent gateway that has a join tells it which branches to expect.
pub mod Select
pub mod Send
pub mod Sent
pub mod Joined
pub mod Announced
