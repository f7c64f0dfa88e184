-- ===== src/Tests.antt =====
-- Concrete inputs, and the theorems applied to them.
mod Data
mod ModelRuns
mod ManagerRuns
mod TrainsRuns
mod ViewRuns
mod SchemaFiles
mod ProtocolRuns
