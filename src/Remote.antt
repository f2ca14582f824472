-- ===== src/Remote.antt =====
-- src/django_event_bus/remote: the resources that a service exposes to the others, and those of
-- the others that it reads.
pub mod Auth
pub mod RateLimit
pub mod Resources
pub mod Grpc
pub mod Views
pub mod Transports
pub mod Fields
pub mod Objects
pub mod Invalidation
