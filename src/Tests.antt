-- ===== src/Tests.antt =====
-- Concrete libraries for the parameters of the model, and the theorems applied to concrete inputs.
pub mod Store
pub mod Data
pub mod Basics
pub mod Gateways
pub mod Exchanges
pub mod Traversals
pub mod Backoffs
pub mod Validations
pub mod Consumers
pub mod Linters
pub mod Compensations
pub mod Engines
pub mod Starting
pub mod Lives
pub mod UserTaskLists
