-- ===== src/Route.antt =====
-- internal/versionroute: the router that re-executes the backend of the requested quarter.
pub mod Quarter
pub mod Args
pub mod Built
pub mod Discover
pub mod Reexec
