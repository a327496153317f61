-- ===== src/Examples.antt =====
-- Concrete runs: the data of the examples, and for each part of the program its laws applied to them.
pub mod Data
mod OfDomain
mod OfStorage
mod OfWorker
mod OfService
mod OfApi
mod Codec
mod OfBroker
mod OfConfig
