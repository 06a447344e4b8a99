-- ===== src/People.antt =====
-- src/server/services/people.ts: people, their devices, invitations and subscriptions. Inputs are
-- those that the zod schemas have parsed; ids, tokens and the clock are arguments.
pub mod Directory
pub mod Devices
pub mod Invitations
