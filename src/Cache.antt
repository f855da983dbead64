-- ===== src/Cache.antt =====
-- The cache of documents: one cached document (src/CacheObject.cpp) and the map of all of them that
-- the stream handler keeps (src/DataStreamHandler.cpp).
pub mod Zlib
pub mod Object
