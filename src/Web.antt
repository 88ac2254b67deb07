-- ===== src/Web.antt =====
-- Frontend/lib and the API routes of Frontend/app/api
pub mod RateLimit
pub mod Auth
pub mod Identity
pub mod Callee
pub mod Trace
pub mod Calls
pub mod PromptSkills
