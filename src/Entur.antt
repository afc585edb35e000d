-- ===== src/Entur.antt =====
-- internal/entur: the upstream client. The child modules model entur.go (`Operators`, `Vehicles`)
-- and client.go (`Convert`, `Client`); the others hold what is proved of them.
pub mod Operators
pub mod Vehicles
pub mod Convert
pub mod Client
pub mod Keys
pub mod Filters
pub mod Requests
