-- ===== src/Storage.antt =====
-- src/storage: the pool of connections and the client of Redis.
pub mod Pool
pub mod Redis
pub mod Mysql
