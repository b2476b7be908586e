-- ===== src/Orders/Service/Routed.antt =====
-- The handlers of the order service behind its routes (order-service/main.cpp, order-service/handlers,
-- shared/http/HttpServer.cpp).
use liquid_pet_project.Models.StrongId
use liquid_pet_project.Models.StrongId.{StrongId}
use liquid_pet_project.Http.{eq_method}
