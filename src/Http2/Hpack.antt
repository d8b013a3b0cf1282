-- ===== src/Http2/Hpack.antt =====
-- HPACK header compression: include/KernelHttp/http2/Hpack.h and
-- src/KernelHttpLib/http2/Hpack.cpp.
pub mod Integer
pub mod Huffman
pub mod Table
pub mod StaticTable
pub mod Names
pub mod Strings
pub mod Decoder
pub mod Encoder
pub mod Blocks
