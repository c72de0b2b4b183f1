-- ===== src/Auth.antt =====
-- Who a caller is: backend/pkg/jwt, backend/pkg/middleware and backend/services/auth-service.
pub mod Tokens
pub mod Interceptor
pub mod Service
