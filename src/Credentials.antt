-- ===== src/Credentials.antt =====
-- AWS credentials: provider/aws/credmanager.go and provider/aws/mfa.go. One run reads the clock once,
-- times are seconds, and the TOTP code and the two STS calls are answers of an environment.
pub mod Sts
pub mod Manager
pub mod Lasting
pub mod Fresh
pub mod Restart
pub mod Examples
