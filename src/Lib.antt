-- ===== src/Lib.antt =====
-- The authentication service: users who register by invite, log in by WebAuthn, and hold sessions of
-- rotating refresh tokens, on five PostgreSQL tables.
--
-- Parts, with the file of the repository that each models:
--   Failure      errors, errors.Is, wrapped and recovered errors (internal/domain/errors.go, pkg/errkit)
--   Domain       the entities and policies of internal/domain, a module for each package: `new` is the
--                package's New, a method that changes its receiver returns the changed record
--   Runtime      what a use case runs in: the database and a count of effects, results as values, and
--                `Env`, which answers the clock, the id generator, the random source, and whether a
--                statement fails
--   Storage      internal/infrastructure/storage: Rows (pg/models.go and the tables), Queries (the
--                statements of pg, with the keys and unique indexes of schema.sql), Transaction
--                (transaction.go), and the five repositories
--   Crypto       internal/infrastructure/crypto: hashing, random tokens, access tokens and, in Tokens,
--                their verifier and the challenge codec, over HMAC, base 32, PASETO, JSON and the texts
--                of UUIDs as parameters; the claims of a token are the calls made on it (Claims)
--   Application  the use cases of internal/application, a module each; `execute` is their Execute.
--                Auth has the interfaces of auth.go, which Webauthn implements. Calls puts
--                the use cases in sequence, as the requests of clients come
--   Webauthn     internal/infrastructure/auth/webauthn: the two adapters over go-webauthn, which is a
--                parameter (`Library`)
--   Errkit       pkg/errkit: the registry of errmap.go, Append of error.go (Multi) and group.go (Group)
--   Idgen        pkg/idgen: the pooled generator of identifiers, whose pool may drop buffers
--   Http         internal/presentation/http: the registries of errors.go, the bearer check and the
--                context values, the client's address, the handlers of handler.go, the error
--                handler of server.go (Server) and, from api/http, the operations of the server: those
--                that need a bearer token (Operations) and the others (Operations.Open),
--                over netip, the library of ogen and the generated decoders as parameters
--
-- A use case reads the clock and draws ids through Env, calls the repositories through statements,
-- and joins or opens a transaction by its context. A function of type `M A` takes the state and gives
-- Go's result beside the state it leaves: a value, an error, or a panic. `f-eq-ok` is what a run of
-- `f` that returned a value has read and written; `Forward` modules run code where no statement fails.
--
-- Integers are natural numbers; times are nanoseconds, so that time.Time arithmetic has no overflow
-- in range. Loops are recursions on lists, but for two that take fuel: the recursive query of the
-- descendants takes as many turns as there are users, which is enough where each user was inserted
-- after the one that invited it, and the scan of X-Forwarded-For takes the length of the header.
--
-- Not modelled: log lines, the contents of contexts but for the transaction, cancellation, the
-- interleaving of concurrent transactions (each use case runs alone between BEGIN and COMMIT; row
-- locks and the advisory lock are kept as statements that change nothing; the calls of one id
-- generator too stand one after the other), the WebAuthn library, the rest of the generated
-- HTTP server, configuration, wiring and telemetry.
pub mod Prelude
pub mod Failure
pub mod Domain
pub mod Runtime
pub mod Storage
pub mod Crypto
pub mod Application
pub mod Errkit
pub mod Http
pub mod Webauthn
pub mod Idgen
pub mod Tests
