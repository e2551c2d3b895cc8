-- ===== src/Examples.antt =====
-- Concrete inputs: runs of the modelled code, and the theorems at inputs where their hypotheses hold.
pub mod Fixtures
mod Catalogs
mod Inboxes
pub mod Jobs
pub mod Texts
pub mod Sends
pub mod Parcels
pub mod Events
