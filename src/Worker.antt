-- ===== src/Worker.antt =====
-- worker-service: events of the order service become reservations.
pub mod Events
pub mod Reservation
pub mod Repository
