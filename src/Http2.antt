-- ===== src/Http2.antt =====
-- The HTTP/2 client core: include/KernelHttp/http2 and src/KernelHttpLib/http2.
pub mod Wire
pub mod Stream
pub mod Frame
pub mod Hpack
