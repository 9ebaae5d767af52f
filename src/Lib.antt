-- ===== src/Lib.antt =====
-- go-dev-auth: the data model, storage, tokens, sessions, second factors, API keys, passkey
-- parsing, secret rotation, administration, rate limits, routing, origin checks and organization
-- rights of the authentication library, modelled and verified.
--
-- The program's parts and how they meet. Requests come in through the route table (router.go),
-- are checked for their origin and rate limit (ratelimit/ratelimit.go), and run a handler: a core
-- one, or one of a plugin (plugins/). Handlers keep everything in tables behind the interface
-- `storage.Adapter` (storage/storage.go): users, sessions, accounts and one-time tokens
-- (token.go, store.go), and the tables that plugins add to the schema. storage/memory implements
-- the interface in memory. A sign-in passes the guards of all plugins, of which the two-factor
-- plugin may take it over and complete it later; a request by an API key passes the session
-- guards as one by a session does. Both the counters of second factors and the quotas of keys are
-- written by a compare-and-set on the adapter, UpdateMany with the old value in its filter
-- (Storage.Swap), as is the pass that seals stored values under a new secret. The administration
-- plugin guards sign-ins and sessions by the bans that its handlers write.
--
-- Which file models which part:
--   Prelude.antt: shared names, tests on numbers, lists, integers, association lists, ASCII texts
--     and Go's pairs of value and error.
--   Storage.antt: storage/storage.go and storage/compare.go. Value is the dynamic value of a
--     field and its comparisons, Filter is `Where` and `Matches`, Schema is `Table` and `Schema`,
--     and Contract is what `Adapter` promises, on a plain list of records.
--   Memory.antt: storage/memory/memory.go. A model is a heap of record objects, the rows of its
--     table and the index on its unique fields (Coll); Operations has one function for each
--     method, which returns the answer and the model as it leaves it, and Transaction has
--     `Transaction` on one model; Traces runs lists of calls, and Unique
--     has UpdateMany on fields that are not unique.
--   Token.antt: token.go, and the part of store.go on verifications. The table is a list of
--     records.
--   Session.antt: the guards, the resolution and the revocation of sessions in session.go, with
--     the calls of store.go and the maps of storage/model.go (Model) that they use.
--   TwoFactor.antt: plugins/twofactor/twofactor.go. It has the counters and the pending
--     challenges; Handlers has the handlers that check a code, and Trust the guard of sign-ins
--     and trusted devices.
--   Otp.antt: crypto/otp.go, over base32 and HMAC as arguments.
--   ApiKey.antt: plugins/apikey/apikey.go, from the header of a request to its session.
--   Keyring.antt: crypto/aead.go, over AES-GCM, SHA-256, scrypt and base64url as arguments.
--   Secrets.antt: the tokens of an account at rest in handler_account.go, and the pass over a
--     table in secrets.go.
--   Admin.antt: plugins/admin/admin.go, with `validateEmail` of handler_email.go and `UpdateUser`
--     of store.go. It has bans, the tests for an administrator and the checks on user data;
--     Handlers has the handlers on users and sessions, each with its own `requireAdmin`, and the
--     dispatch on ten of the thirteen routes; Listing has the list of users.
--   Random.antt: `GenerateID` and `GenerateOTP` of crypto/random.go, over the bytes that are
--     read.
--   Cascade.antt: cascade.go and `DeleteUser` of store.go, where any call of the adapter may fail.
--   Passkey.antt: plugins/passkey/cbor.go (Cbor) and the parsers of plugins/passkey/webauthn.go
--     (Webauthn), on lists of bytes.
--   RateLimit.antt: ratelimit/ratelimit.go with its in-memory store.
--   Router.antt: the route index, `match` and `matchPath` of router.go.
--   Origin.antt: `isTrustedOrigin` and `checkOrigin` of origin.go, with url.Parse as an argument.
--   Organization.antt: the removal of a member, the change of a role and the leaving of an
--     organization in plugins/organization/.
--   Examples.antt: the theorems on concrete inputs.
--
-- State is passed explicitly. A Go method that returns an error returns `Result`; a parser whose
-- errors are all one returns `Option`. A mutex makes each method of the memory adapter one step,
-- so the interleavings of requests are the sequences of adapter calls (Token.SingleUse). Times
-- and durations are numbers of nanoseconds, but for seconds in Otp and TwoFactor.Trust; random ids
-- and tokens, the digest of a token and the clock are arguments.
--
-- Bounds and fuel. The CBOR decoder recurses on the number of nested items that it may still
-- enter, which starts at 32, the limit of the source; its loops recurse on the count that the
-- message declares. The exponent of a rounded float is found within 11 halvings, enough for
-- 64-bit integers. All other loops recurse on a list, but for the five attempts of a quota and
-- the steps of a code's window, which are counted, and the reads of the random source, a list
-- that may run out. A printed int has 19 digits at most, for which 20 steps are given.
--
-- Not modelled: floats and slices as record values, Unicode case mapping (texts are compared
-- with the case mapping of ASCII), times before the year 1, texts read as times, failures of a
-- database other than the adapter's own errors in Token, Session, TwoFactor, ApiKey and
-- Organization, database hooks, the overflow of a duration other than that of a ban, times of a
-- ban that int64 does not hold, the cache of derived keys, the plugins' own rotators in
-- `Auth.ReencryptSecrets`, platforms whose int has 32 bits, audit events, the creation and
-- removal of users and the setting of passwords by an administrator, transactions over several
-- models, the cryptography and the verification of signatures, cookies and the cookie cache, the
-- enrolment of a second factor, the HTTP layer, and the other plugins and adapters.
pub mod Admin
pub mod ApiKey
pub mod Cascade
pub mod Examples
pub mod Keyring
pub mod Memory
pub mod Organization
pub mod Origin
pub mod Otp
pub mod Passkey
pub mod Prelude
pub mod Random
pub mod RateLimit
pub mod Router
pub mod Secrets
pub mod Session
pub mod Storage
pub mod Token
pub mod TwoFactor
