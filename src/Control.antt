-- ===== src/Control.antt =====
-- internal/gateway_ctl: the control session with the edge, and the dispatcher of its connection.
pub mod Handlers
pub mod Results
pub mod Lifecycle
pub mod Dispatcher
mod Tests
