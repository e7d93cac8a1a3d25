-- ===== src/Http.antt =====
-- src/http: the receivers of the body of an HTTP message, which are streams on top of the stream of the
-- connection, and the sending of chunks.
pub mod ContentLength
pub mod Chunked
pub mod Sending
mod Tests
