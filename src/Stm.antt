-- ===== src/Stm.antt =====
-- src/basilisp/lang/stm.py: the optimistic software transactional memory.
pub mod Ref
pub mod Transaction
pub mod Commit
pub mod Attempts
pub mod Effect
pub mod Body
pub mod Reads
pub mod Staged
pub mod Serial
pub mod Retry
pub mod Safety
pub mod WellFormed
