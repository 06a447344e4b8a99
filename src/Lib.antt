-- ===== src/Lib.antt =====
-- The server of Matreshka, a panel that gives the devices of a household access to two proxy
-- engines, Hysteria and Xray. Its services share one SQLite database; all state of the program is
-- there. The services that are modelled, in src/server:
-- * services/device-sync.ts (DeviceSync): an outbox of jobs. Redeeming an invitation and revoking a
--   device write a job; `process` claims it, asks the engine to add or remove the device, and either
--   completes the job together with the tables of people or queues it again. DeviceSync/Jobs has the
--   job table, DeviceSync/Process the claim, the outcome, drain and revoke, DeviceSync/Redeem the
--   redemption; Activation, Severed, Revocation, Drain, SecondLink, Queue and Retry have the theorems,
--   with the lemmas of Steps, Frame and Loop.
-- * services/people.ts (People): people (People/Directory), and devices with their credentials and
--   invitations (People/Devices). Registry has the tables, from db/schema.ts and models.ts, and the
--   result of a call that may throw a ServiceError: its HTTP status.
-- * services/monitoring.ts (Monitoring): the state of services, disk and certificate. Monitoring/State
--   is the table of monitors, Observe the two rules that turn polls into events, Collect one poll.
-- * services/traffic.ts (Traffic): Record turns cumulative counters into increments, Compact merges
--   old samples, Presence and Facts keep what is known of a device, Telemetry is one poll of the
--   engines; Volume sums samples, and Metered, Conservation, Polls and Absence have the theorems.
-- * services/routes.ts (Routes): the draft of the routing rules and its published revisions.
-- * auth/webauthn.ts (Auth): Auth/Tables and Sessions have the sessions of the owner and the check of a
--   request, Challenges the sign-in with a passkey and the passkeys, Registration the link with which
--   the first owner comes about and the adding of passkeys, Tokens the API tokens; Access, Onboarding
--   and TokenAccess have the theorems, with the lemmas of Offer, Newcomer,
--   Outsiders and Reached.
-- * services/operations.ts (Operations): actions that are previewed, confirmed once and then run by the
--   privileged agent or the outbox. Actions has the events and data of each action, Validate the
--   checks, Run the tables of confirmations and operations; Once, Lifecycle and Removal the theorems.
-- * http.ts (Http): Endpoints is the table of endpoints, Guard the access checks before a handler runs;
--   Scopes, Confinement and Reading have the theorems on API tokens.
-- * adapters/engines.ts (EngineConfig): Template has the protected blocks and the rendering, Configs the
--   versions that are applied and rolled back, Diff the diff of lines; Active has the theorems.
-- * services/setup.ts (Setup): Domain has the checks of texts, Finalize the setup of the server's domain,
--   Checks the theorem. services/system.ts (System): the order of the engines and the health.
-- * services/journal.ts and the audit of db/database.ts (Journal): Record writes events and audit
--   rows, Types is the catalogue of events, Sanitize removes secrets from their data, Listing is one
--   page of the journal; Paging and Order have the theorem on pages.
-- Every service writes to the journal; an operation that revokes a device calls the outbox; a request
-- is let in by Auth, checked by Http and handled by a service; the setup asks Auth about the link;
-- Telemetry shares the table of monitors with Monitoring; the outbox and Traffic change the device rows
-- of People.
--
-- A table is a list of rows in order of insertion, and Base/Table has the statements that are run on
-- it. A call of a service is a function from the tables to the tables and its result; where it may
-- throw, its result is a Result or an Option. Times are milliseconds, where the program compares ISO
-- texts of one format; ids, tokens and hashes are numbers. What a call draws at random (ids,
-- tokens), the time, the answer of an engine, hashing, sealing and key derivation are arguments.
-- `process` awaits an engine between its two halves: the theorems on one call take the halves as one
-- step, Queue takes them apart. An operation, a new configuration and the setup of a domain await a
-- call too, and are one step. Numbers are exact, where the program has doubles; the percentages of a
-- poll, which it rounds, are arguments. Every loop of the program runs over a list; only the reader
-- of page after page runs on fuel, for which one more than the number of events found is enough.
-- Text that code looks into is a list of code points; where a text goes through trim or toLowerCase,
-- the model starts from the result. Patterns of URLPattern, the parsers of JSON and YAML, DNS, the
-- agent and the WebAuthn library are arguments.
--
-- Not modelled: the bodies of the HTTP handlers, cookies and static files; the command line, the web
-- panel and its built assets, and the agent in Go; the demo; subscription texts and recovery of the
-- engines; reports of traffic and the rendering of the journal; free settings, backups and the state of
-- the host; migrations. Views that only read are left out unless a theorem needs them. The `before` and
-- `after` snapshots of the audit are left out, and so are the names of people in the data of events,
-- the version numbers in those of configurations, the scopes in that of a token, the order in that of the engines, and the texts of
-- errors. A text that replaces a block of a template has no `$`, which `replace` would read.
pub mod Base
pub mod Journal
pub mod Monitoring
pub mod Registry
pub mod People
pub mod DeviceSync
pub mod Traffic
pub mod Routes
pub mod Auth
pub mod Operations
pub mod Http
pub mod Setup
pub mod System
pub mod EngineConfig
pub mod Tests
