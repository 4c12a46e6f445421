-- ===== src/Gateway.antt =====
-- internal/server/workflow/gateway.go: convergent gateways wait for their branches in the bucket of
-- gateways, merge the variables of the branches, and complete.
pub mod Track
pub mod Merge
pub mod Handlers
