-- ===== src/Auth.antt =====
-- hub/auth.py: the limiter on failed logins, and session cookies.
pub mod RateLimit
pub mod Cookies
