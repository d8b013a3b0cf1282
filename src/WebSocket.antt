-- ===== src/WebSocket.antt =====
-- WebSocket framing and the opening handshake: include/KernelHttp/websocket/WebSocketFrame.h and
-- src/KernelHttpLib/websocket/WebSocketFrame.cpp.
pub mod Codec
pub mod Base64
pub mod Subprotocol
pub mod Handshake
