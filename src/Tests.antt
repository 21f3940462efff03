-- ===== src/Tests.antt =====
-- The theorems of the other modules at concrete inputs.
pub mod Messages
pub mod Connection
pub mod Clients
pub mod Events
pub mod Variables
pub mod Configs
pub mod Workload
pub mod Toy
pub mod Transactions
pub mod Confirmations
pub mod Expressions
pub mod Declarations
pub mod Benchmark
