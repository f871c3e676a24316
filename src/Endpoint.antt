-- ===== src/Endpoint.antt =====
-- internal/endpoint: the endpoints of a machine, what each does with a work connection, and the
-- manager that follows the edge's messages.
pub mod Delivery
pub mod Listener
pub mod Runtime
pub mod Manager
