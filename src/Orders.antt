-- ===== src/Orders.antt =====
-- order-service: money, items and orders, their JSON and their rows, the repository, the handlers and
-- the routes.
pub mod Money
pub mod Order
pub mod Json
pub mod Rows
pub mod Handlers
pub mod Repository
pub mod ReservedHandler
pub mod Service
