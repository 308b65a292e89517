-- ===== src/Tests.antt =====
-- The tests.
pub mod Codec
pub mod Sample
pub mod State
pub mod Refreshes
pub mod Sessions
pub mod Gates
pub mod Administration
pub mod Texts
pub mod Accounts
pub mod Probes
pub mod Catalogue
pub mod Navigation
pub mod Gateway
pub mod Proxying
pub mod Provisioning
pub mod Readings
pub mod Keyring
pub mod Turns
