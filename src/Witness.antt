-- ===== src/Witness.antt =====
-- Concrete runs of the theorems: the data, and in the children an example for each theorem that has
-- hypotheses.
pub mod ConnectorData
pub mod IngestionData
mod Registrations
mod Requests
mod Jobs
mod Deliveries
mod Limits
pub mod ToolData
mod ToolCalls
pub mod AccountData
mod AccountCalls
mod Chunks
mod Citations
mod Admins
mod Tenants
