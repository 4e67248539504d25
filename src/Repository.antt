-- ===== src/Repository.antt =====
-- internal/repository/repository.go: what `Store` does with a packet before and after the SQL.
pub mod Batch
pub mod Shape
pub mod Placed
pub mod Built
pub mod Rounds
pub mod Layers
pub mod LayersEnd
pub mod States
pub mod Relax
pub mod Shortest
pub mod Logs
pub mod Logged
pub mod Store
pub mod Stored
