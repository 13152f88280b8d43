-- ===== src/Sync.antt =====
-- core/aurorix-sync: the outbox and the reducer of the sync protocol.
pub mod Digest
pub mod Outbox
pub mod Mutation
pub mod Reducer
mod Examples
