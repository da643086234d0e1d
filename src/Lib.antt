-- ===== src/Lib.antt =====
-- A model of the Fikua identity provider: an OAuth 2.0 authorization server for OpenID4VCI issuance
-- (FAPI 2.0, DPoP, wallet attestation) with an end-user identification step, and an OpenID4VP
-- Verifier of wallet presentations.
--
-- The parts, and the files that model them:
-- - internal/session/store.go, the in-memory store that every endpoint shares: Session. `Types` has
--   the entries and the `Store`; `Requests` the pushed requests, deferred authorizations,
--   identifications and the replay cache; `Codes` the authorization codes and the denylist of
--   revoked tokens; `Verifications` the verification sessions with their indexes by state and by
--   key id. `Trace` makes each method a step (`Op`), for statements about any sequence of calls;
--   `SingleUse`, `Lifetimes`, `Revocation` and `Index` hold those statements.
-- - internal/oauth2: OAuth2. `Error` is error.go; `Jti` and `Dpop` are dpop.go; `Attestation` is
--   clientattestation.go; `Token` is token.go and pkce.go. `Jose` is the record of the functions
--   that the code calls in the JOSE, X.509, hash and URL libraries.
-- - internal/authz/service.go: Authz. `Par` is HandlePar, `Authorize` HandleAuthorize, `Identify`
--   ResolveIdentifyScope, CompleteIdentification and RejectIdentification, `TokenGrant`
--   HandleAuthCodeToken and RevokedJTIs; `Types` has the service and the redirect. A handler runs
--   over the `State`: the store of sessions and the set of DPoP identifiers. `Grant`, `Reuse`,
--   `Pushed`, `Visits`, `Identification` and `RoundTrip` hold the statements about them.
-- - internal/verifier/service.go, the OpenID4VP Verifier: Verifier. `Create` is CreateSession
--   (with requestobject.go), `Tokens` the DCQL query and the shapes of a `vp_token`, `Presentation`
--   the checks of presentations and of their one holder, `Response` HandleResponse,
--   GetRequestObject and GetResult; `Checked`, `Steps`, `Verified`, `Holder`, `Outcome`, `Opening`
--   and `Served` hold the statements. The two functions that check one presentation are an
--   interface, `Presentations`, which SdJwt fills for SD-JWTs; `Presented` is about the two
--   together.
-- - internal/sdjwtverify/verify.go, which checks one SD-JWT presentation: SdJwt, with the parts of a
--   presentation; `Check` has the checks; `Signed`, `Decoded`, `Sound` and `Complete` say what they
--   accept.
-- - internal/mdocverify, which checks one ISO 18013-5 presentation: Mdoc. `Cbor` has the decoded
--   values and the helpers on them, `Cose` is cose.go, `Chain` certchain.go, `Transcript`
--   sessiontranscript.go, `Digests` and `Verify` verify.go. `Elements`, `Sound`, `Device` and
--   `Accepted` say what is accepted where a document is decoded as a `map[string]any`, `Refused`
--   what comes of the decoder that the code calls, `Binding` what the transcript fixes,
--   `ValidChain` which chains hold. `Library` is the record of the CBOR, ECDSA and X.509 functions
--   that the code calls.
-- - internal/oidcclients/registry.go, the registry of Relying Parties and of the scopes that select
--   a credential: OidcClients, with `Loaded` and `Scopes`.
-- - internal/oidcserver, logins by OpenID Connect over the Verifier: OidcServer. `Types` and `Store`
--   are store.go, authrequest.go and refreshtoken.go; `Storage` is storage.go and client.go; `Login`
--   is login.go, over a `World` of this store and the Verifier's sessions. `Trace` has sequences of
--   calls; `Ledger` is the ideal store, and `Tracked`, `Refine` and `Replies` relate the two;
--   `SingleUse` and `Logins` hold the other statements.
-- - internal/statuslistcheck/statuslistcheck.go: StatusList, and `Entries` on what it reads.
-- `Prelude` (tests, lists), `Texts` (splitting), `Assoc` (Go maps as association lists), `Action` (state and error),
-- `Fallible` (error alone) and `Json` are shared; `Fixtures` and the modules of tests hold concrete
-- runs.
--
-- How the code corresponds:
-- - A method of the store holds its mutex throughout, so it is one function from store to store, and
--   an interleaving of requests is a sequence of such steps. A handler is composed of these steps in
--   the order in which the code calls them, with an early return as an error (`Action`).
-- - Times are natural numbers of nanoseconds. A difference that would be negative is 0 here, which
--   decides every comparison with a lifetime as Go's does; where Go tests both signs, both
--   differences are tested (`outside`). A handler reads one clock per stretch without a call over
--   the network: HandleAuthorize and CompleteIdentification have one before and one after the call
--   of the Credential Issuer.
-- - Random tokens (RandomToken, GenerateNonce, RandomJTI), the Credential Issuer's answers and the
--   order in which `range` visits a map are arguments; the loops that merge the claims of a response
--   and of a poll, and the two over the holder keys, have an order each.
-- - A pointer to a verification session is reached through the store's map alone, so the map holds
--   values and a write through the pointer puts the value back. The metadata of a code only ever
--   holds texts. `equalFoldASCII` reads bytes; the model reads code
--   points, which agree on it since no byte of a longer code point is an ASCII letter.
-- - `parse_certificate` is base64 decoding and X.509 parsing together, for which the code has one
--   error; an EC key that the JOSE library cannot import is not modelled.
-- - JSON numbers are naturals. What `int64` makes of a status list index as a float64 is a field of
--   `Network`, by its 64 bits; its product with the bits of an entry keeps the wrap-around of an
--   int64.
-- - A separator of `strings.Split` is one character, compared as a text. A login's request is a
--   pointer in the store's map; the model writes its completion back to the map. A poll and a page
--   load have one clock, and are one step.
-- - A CBOR integer keeps the conversion of a uint64 to an int64, with its wrap-around. In
--   internal/mdocverify a time counts from Go's zero time, which is the code's "no date".
-- - An error of internal/sdjwtverify and internal/mdocverify is its text; that some errors of the
--   libraries pass through without the package's `Error` around them is not kept.
-- - Where Go would dereference a nil response encryption key and panic, the model has an error.
-- No function runs on fuel: every loop of the modelled code is over a map, a list or a text.
--
-- Not modelled: internal/httpapi (routing and encoding), internal/config, internal/webui, web and
-- cmd/idp (wiring and assets), the signing keys of internal/crypto and the HTTP client of
-- internal/issuerclient. Of internal/oidcserver, the storage methods with a
-- constant answer, the wiring of the OpenID library and the adapter of the signing key; the library
-- itself is not part of the repository, so the storage's operations come in any sequence.
pub mod Prelude
pub mod Assoc
pub mod Action
pub mod Fallible
pub mod Json
pub mod Session
pub mod OAuth2
pub mod Authz
pub mod StatusList
pub mod Texts
pub mod SdJwt
pub mod Mdoc
pub mod OidcClients
pub mod OidcServer
pub mod Verifier
mod Fixtures
