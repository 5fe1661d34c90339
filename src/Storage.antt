-- ===== src/Storage.antt =====
-- evm/storage: the state that contracts read and write, over a key-value store.
pub mod SortedMap
pub mod Store
pub mod Overlay
pub mod Cache
pub mod Iterator
pub mod JoinIter
pub mod Word256
pub mod Account
pub mod StateDb
mod Examples
