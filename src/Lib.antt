-- ===== src/Lib.antt =====
-- A verification library for a vault of microservices: one that holds secrets and encryption keys
-- behind a seal, and others for authentication, encryption, tokenization and audit, behind a
-- gateway. The Go code is translated by hand into definitions that run, and theorems about them.
--
-- The parts, and the files that model them:
--
-- Aes.antt: pkg/crypto/aes/aes.go, the AES-GCM cipher and the text format "vault:v<version>:<base64>"
--   of a ciphertext. `Cipher.Encrypt` is `encrypt`, `ParseCiphertext` is `parse_ciphertext`, and so
--   on. AES-GCM and base64 are the record `Library`, whose documented laws are `RoundTrip.Laws`; Toy
--   is an instance for which they hold.
-- Keyring.antt: pkg/crypto/keyring/keyring.go, the versions of every key, their rotation, the cache of
--   ciphers and the seal of the keyring. A method of `Keyring` is a function from the keyring to the
--   new keyring and the result; Policy holds the data and the making of keys, History the sequences
--   of calls.
-- Lock.antt: services/lock/internal/service/lock_service.go, the vault: `Initialize` hands out key
--   shares, `Unseal` collects them, `Seal` closes the vault; `PutSecret` and its like (Secrets) and
--   the methods on keys work while it is open. It owns a keyring and calls its operations. Shamir is
--   the placeholder for secret sharing; Lifecycle the sequences of calls.
-- Acl.antt: pkg/auth/policy/policy.go, the rules by which the auth service decides what a caller may
--   do. Rules holds the data, `evaluate` is `Evaluator.Evaluate`, `path_matches` is `pathMatches`.
-- Audit.antt: services/audit/internal/storage, the log in memory (Audit) and over a file (File). Scan is
--   the loop of `Query` of both. Service is services/audit/internal/service/audit_service.go, the buffer
--   in front of a store and the steps of the worker that flushes it.
-- CircuitBreaker.antt: services/gateway/internal/middleware/circuitbreaker.go, one breaker per backend.
--   Calls overlap, so a run is a list of beginnings and ends of calls (`Event`).
-- Cache.antt: pkg/storage/cache/lru.go, the cache with expiry that the services share. The LRU list is the
--   record `LruList` of Cache/Lru.antt with its documented laws; Ideal compares it with a map.
-- Crypto.antt: services/crypto/internal/service/crypto_service.go, encryption with keys of the lock
--   service and a cache of these keys. `EncryptBatch` runs the tasks of its worker pool in any order
--   (Pool); the answers of the lock service are an argument, `LockClient`.
-- Fpe.antt: pkg/crypto/fpe/ff1.go, format preserving encryption: the checks around FF1, which is the
--   record `Ff1` with its documented laws in RoundTrip; Toy is an instance.
-- Tokenize.antt: services/tokenize/internal/service/tokenize_service.go, which calls Fpe with keys of the lock
--   service. Masking is `Mask`, Custom the transformations that callers add.
-- Jwt.antt: pkg/auth/jwt/jwt.go, the tokens that the auth service signs; golang-jwt is the record
--   `JwtLibrary`, whose documented laws are in Lifetime. A failure to parse is a value, `Parsed`.
-- Auth.antt: services/auth/internal/service/auth_service.go, over the repositories of
--   services/auth/internal/repository (Tokens, ApiKeys, Policies; Page is the paging of all three). It
--   calls Jwt, Cache and Acl.
-- Prelude.antt, Strings.antt: what they share. Go strings and byte slices are lists of bytes (`Text`), maps
--   are association lists (`Map`), errors are values (`Result`, with `panic` for a run-time panic).
--
-- Conventions. A Go `int` is the type `ℤ` over native numbers; the versions of keys and secrets
-- wrap by `int_inc`, and the theorems about the keyring say how many calls they cover. A
-- `uint32` is a number modulo 2^32 (`u32`). A time is a number of nanoseconds. What the clock
-- shows and what `rand.Read` delivers are arguments of an operation; a failure of `rand.Read` is
-- `none`. All loops are structural recursion. Fuel occurs only in the printing of a decimal
-- number, where n + 1 steps are given for the number n and each step divides by ten.
--
-- A mutex makes a method one step, so runs are sequences of whole calls; the breaker's calls are two
-- steps, as its lock is released in between. Pointers to policies, keys and ciphers that a caller
-- keeps are not followed, but for `Keyring.seal`, which returns what it overwrites in them.
--
-- Not modelled: generated code (gen/go) and the interface files it comes from (api/proto), the mains,
-- the configuration, logging and the wire codec, which only call libraries. Of the vault's own
-- logic, the handlers, and the gateway's router, proxy and other middleware are not modelled.
pub mod Prelude
pub mod Strings
pub mod Aes
pub mod Keyring
pub mod Lock
pub mod CircuitBreaker
pub mod Acl
pub mod Audit
pub mod Cache
pub mod Crypto
pub mod Fpe
pub mod Tokenize
pub mod Jwt
pub mod Auth
