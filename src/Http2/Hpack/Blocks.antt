-- ===== src/Http2/Hpack/Blocks.antt =====
-- Header blocks between HpackEncoder and HpackDecoder of src/KernelHttpLib/http2/Hpack.cpp.
pub mod Fold
pub mod Matching
pub mod Agreement
pub mod Names
pub mod Literals
pub mod Rounds
pub mod Headers
pub mod Sending
pub mod Delivery
pub mod RoundTrip
pub mod Connection
pub mod Parts
pub mod Limits
pub mod Bounds
mod Examples
