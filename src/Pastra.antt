-- ===== src/Pastra.antt =====
-- dbs/pastra/: the storage engine, with the file class that it stands on.
pub mod File
pub mod Container
pub mod BlockCache
pub mod VarStorage
pub mod TableSort
pub mod BTree
