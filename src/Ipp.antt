-- ===== src/Ipp.antt =====
-- ipp_server.py: the request that is read, and the response. The lines that are written to the error
-- log where a request cannot be read are left out.
pub mod Tables
pub mod Reader
pub mod Attributes
pub mod Head
pub mod Response
mod Tests
