-- ===== src/Examples.antt =====
-- Concrete inputs at which the theorems are applied, by the part of the program.
pub mod Values
mod Bus
mod OnKafka
mod OnRedis
mod OnFactory
mod OnRabbit
pub mod OnRemote
pub mod OnResources
pub mod OnGrpc
mod OnTransports
mod OnSettings
pub mod OnFields
