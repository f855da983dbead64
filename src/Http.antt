-- ===== src/Http.antt =====
-- src/HttpStream.cpp: a document that curl transfers over HTTP, in parts.
pub mod Status
pub mod Error
pub mod Stream
pub mod Header
pub mod Transfer
pub mod Response
pub mod Read
pub mod Debug
