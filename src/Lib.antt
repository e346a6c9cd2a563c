-- ===== src/Lib.antt =====
-- sshpilot-vallet: the backend that publishes the SSH public keys of an owner. This library
-- models the parts of the Go program that decide, and proves what they promise.
--
-- Prelude: shared names; byte strings (Text), maps (Assoc), the error classes (Results), int64 and
-- time (Word: a value of int64 is its bit pattern, and arithmetic wraps), decimal text (Decimal),
-- UTF-8 (Runes).
-- Counter: internal/counter. Port has the interface of counter.go with two records of laws, the
-- contract of the three calls and active expiry; Memory is memory.go (MemoryStore), with Refines,
-- Writes, Expires and Residents; Failover is
-- failover.go, with the request path, the probe intervals and the reprobe loop as a step relation.
-- RateLimit: internal/ratelimit. Limiter is ratelimit.go and Backoff is backoff.go; both are written
-- over any store, and their theorems take the port's contract, which the in-process store meets.
-- Auth: internal/auth and internal/domain. Scopes is domain/scope.go and ValidateScopes; Denylist is
-- denylist.go over the counter store; Guard is authorization.go over the denylist, and Guard/Revocation
-- the two together.
-- Token is the texts of auth/token.go and pairingcode.go, UserCode the code that a person types; AccessToken
-- is accesstoken.go, Tokens is tokenservice.go, and Enrollment is enrollment.go with apitoken.go and authenticator.go. Sessions
-- runs any sequence of the calls of both services over the same tables and counter store.
-- Storage: internal/storage/sqlite, as far as these services use it. Table has the SQL statements on a
-- list of rows; Db the tables and WithTx; Credentials and Pairings are refreshcred.go, pairing.go and
-- linkedidentity.go; Changes and Steps are the step relations that the services refine. A database
-- carries a list of faults: which of its next statements the engine refuses, whatever the reason.
-- ManagedBlock: internal/managedblock. Block is block.go (Lines, Located, Found, Spliced, Repeated
-- and Rendered carry its proofs: a text as its lines, where the block is, the splice, the second splice
-- and the rendered block); Apply is apply.go over a file system that is a parameter, whose promises
-- Safe names as a record of laws.
-- Migrate: internal/migrate. Registry is registry.go, migration.go and migrate.go; Ledger is port.go,
-- ledger.go and checksum.go; Transaction and Runner are runner.go. The database is a parameter, and
-- so are the hash, the text form of a time, and the statements' effect.
-- Examples: the theorems at concrete inputs, and runs of the definitions.
--
-- An operation that runs under a mutex is one function from the state to its result and the next
-- state; the context's cancellation and the clock are arguments. Digests and the verification of a
-- token's signature are parameters. Logging, the wording of error messages and redaction are left
-- out: an error is its class under errors.Is.
-- The list of digits of a decimal takes 20 units of fuel, which is enough for every number below
-- 2 ^ 64. The loop of lineSpans takes the text's length, since each turn drops a byte at least
-- (line_spans-offsets shows that the spans are those of all the lines).
-- A call of Tokens or Enrollment runs whole: the calls that run between the statements of one
-- redemption are not modelled, except that a lost race is a conditional UPDATE that is refused.
-- Not modelled: the key parser, the audit log, the sweeps, the configuration, the domain services,
-- and the transport and the rest of the storage around them, which are input and output.
pub mod Prelude
pub mod Auth
pub mod Counter
mod Examples
pub mod ManagedBlock
pub mod Migrate
pub mod RateLimit
pub mod Storage
