-- ===== src/Api.antt =====
-- internal/api/grpc: the gRPC server of the notification platform.
pub mod Convert
pub mod Server
pub mod Batch
pub mod Outcomes
pub mod Totals
pub mod Tests
