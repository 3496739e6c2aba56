-- ===== src/Storage.antt =====
-- packages/storage: the persistence ports over a storage-core Store.
pub mod Keys
pub mod Records
pub mod Fields
pub mod Codec
pub mod Ports
pub mod Program
pub mod Checks
pub mod Store
pub mod RoleStore
pub mod Safety
mod Tests
