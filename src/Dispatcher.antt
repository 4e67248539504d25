-- ===== src/Dispatcher.antt =====
-- internal/dispatcher/dispatcher.go: routing entities to the functions of the modules.
pub mod Tags
pub mod TagLaws
pub mod Config
pub mod Indexed
pub mod Actionable
pub mod Routing
pub mod TypesAgree
pub mod Routed
pub mod Due
