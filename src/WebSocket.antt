-- ===== src/WebSocket.antt =====
-- src/WebSocket: the frames of a connection that has become a web socket.
pub mod Frame
