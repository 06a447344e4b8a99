-- ===== src/Auth.antt =====
-- src/server/auth/webauthn.ts: sign-in challenges, passkeys and sessions of the owner. Hashing and
-- the checks of the WebAuthn library are arguments.
pub mod Tables
pub mod Sessions
pub mod Challenges
pub mod Access
pub mod Registration
pub mod Tokens
pub mod Offer
pub mod Newcomer
pub mod Outsiders
pub mod Reached
pub mod Onboarding
pub mod TokenAccess
