-- ===== src/Application.antt =====
-- internal/application: the services, over the interfaces of ports.go.
pub mod Ports
pub mod CacheLaws
pub mod LockLaws
pub mod Validation
pub mod ReportService
pub mod RecomputeService
pub mod AuditService
pub mod HealthService
