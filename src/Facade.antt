-- ===== src/Facade.antt =====
-- src/index.js: the client that joins the components.
pub mod Session
pub mod Cache
