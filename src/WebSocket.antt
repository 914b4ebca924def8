-- ===== src/WebSocket.antt =====
-- The console's websocket server: apps/console/src-tauri/src/native_websocket.
pub mod Hub
