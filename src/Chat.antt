-- ===== src/Chat.antt =====
-- api/chat.py: the WebSocket endpoint, its handshake and its two loops.
pub mod Receive
pub mod Keeps
pub mod Voice
pub mod Forward
pub mod Sentinel
