-- ===== src/Kiroclient.antt =====
-- internal/kiroclient: requests to the Kiro API, and when they are sent again.
pub mod AwsError
pub mod Client
