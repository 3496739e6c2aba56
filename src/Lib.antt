-- ===== src/Lib.antt =====
-- Verification of the authorization packages of this repository.
--
-- The program resolves what a principal may do from trusted facts and an application's policy
-- (packages/core, on the contracts of packages/contracts). Policies are documents that packages/policy
-- validates. The facts, role assignments and identity links, are kept in a storage-core Store
-- (packages/storage); packages/admin guards who may change them, and packages/stripe derives
-- entitlements from a payment provider's state; packages/identity-link, auth0 and entra turn verified
-- claims into the key of an identity link. packages/tokens issues short grants from a resolved
-- authorization and lets other services verify and consume them, once. Each file opens with the code
-- that it is about:
--   Contracts          packages/contracts/src/index.ts, the facts that the packages exchange
--   Core, Core/        packages/core/src/index.ts: Core has `resolveAccess`, `hasPermission`,
--                      `decideAccess` and their reads of own properties
--   Storage/Keys, Records, Fields, Codec
--                      packages/storage/src/collections.ts: keys, records and codecs
--   Storage/Ports      packages/storage/src/index.ts: commands and results
--   Storage/Checks     packages/storage/src/role-store.ts: the snapshots and checks of its input and
--                      of what it reads
--   Storage/RoleStore, RoleStore/
--                      packages/storage/src/role-store.ts: each method of `createRoleStore`, named
--                      as in the source with words joined by underscores
--   Storage/Program, Store
--                      the asynchronous programs, and the Store that they call
--   Storage/Safety, Safety/, RoleStore/Mutations/
--                      the methods called by many clients in any interleaving: what they may ask of
--                      the Store, what a committed transaction does to its rows, the runs, and a
--                      Store in memory on which they are tried
--   Policy, Policy/    packages/policy/src/index.ts: `validatePolicy` and `parsePolicy` with their
--                      diagnostics; what lists, maps and whole documents mean, and how `resolveAccess`
--                      takes what was parsed
--   Admin, Admin/      packages/admin/src/index.ts: the service's methods as programs of requests to
--                      its ports, their traces, and what a trace of each method tells
--   Tokens, Clock, StorageKeys
--                      packages/tokens/src/internal.ts: limits and forms of names, the guarded clock,
--                      and the parts of storage keys
--   Tokens/Issuer, Grants, Issuance
--                      packages/tokens/src/issuer.ts: `issue`, from its admission to the compact grant
--   Tokens/Verifier, Verification, Verification/
--                      packages/tokens/src/verifier.ts: `parseCompactGrant` from the JSON on, and
--                      `verifyAndConsume` as a program of questions, with its `consume` of replay.ts
--   Tokens/Jwks, Jwks/ packages/tokens/src/jwks.ts: the key cache between its awaits, and its runs
--   Tokens/Replay, Replay/, Consumption
--                      packages/tokens/src/replay.ts and jti-reservation.ts: consumption of grants and
--                      reservation of identifiers, and their runs over one Store
--   Tokens/Lifetime, Handover
--                      the issuer and the verifier together: times, and the claims handed over
--   Stripe, Stripe/    packages/stripe/src/index.ts: the translator of active facts, and the adapter
--                      over persisted state
--   Identity, Identity/
--                      packages/identity-link, packages/auth0 and packages/entra, src/index.ts: from
--                      verified claims to the key of an identity link
--   Common, Text, Js   shared types and lemmas; strings as UTF-16 code units; JavaScript values
--
-- How the code is modelled. A function that may throw returns a Result. A JavaScript value is an
-- array or an object with own properties (Js), so that accessors, missing fields, holes, symbols and
-- inherited properties are told apart; `undefined` fields of the contracts are Options. A method of
-- the role store is a tree of requests: at each `await` of the Store it hands over a request and goes
-- on from the reply. The Store is a third-party package, a parameter: Storage/Store states what its
-- documentation promises of each request; of what a listing holds it promises nothing, since a
-- listing is no snapshot. In a run, clients call any method at any moment, one request of one
-- client is served at a time, and a served request may lose its reply, whether or not it took
-- effect. The administration service is such a tree over its own ports, of which nothing is
-- assumed: a trace lists the requests of a call and the replies. So is `verifyAndConsume`, over the
-- key cache, the signature check, the clocks and the insert of the Store. In the token packages
-- base64url, the signature library, the random source, the strict JSON parse and the loading of a
-- key document are parameters: a definition takes what they answer. The key cache is a state, and
-- the parts of its callers between two awaits are functions on it, in any order in a run.
--
-- Bounds. All functions are structural recursions. `decimal` writes a number in at most as many
-- rounds as the number, and an audit row's sequence, 1 or 2, has four digits. Times are checked to be
-- safe integers (below 2 ^ 53) before they become naturals. A reading of a clock is a whole number of
-- milliseconds or no finite number.
--
-- Not modelled: of packages/tokens the strict JSON parser, the issuer's reads of its source and
-- their snapshots, the validation of key documents and the registry of shared caches, and the codecs of
-- the replay and identifier collections; of packages/admin the queue that serializes the revocations
-- of one process and the checks of options at construction; of packages/stripe the binding of the
-- loader's method; `serializeAccessContext`. Proxies, the text of error messages
-- beyond what a TypeError says of which field, freezing, the concurrent point reads of a batch
-- (they are made in order), the in-memory adapter, tests, examples and the release scripts.
pub mod Common
pub mod Text
pub mod Js
pub mod Contracts
pub mod Core
pub mod Storage
pub mod Tokens
pub mod Policy
pub mod Admin
pub mod Stripe
pub mod Identity
