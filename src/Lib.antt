-- ===== src/Lib.antt =====
-- Secret Letter: one-time secret letters. The browser program is in frontend/web-app/src of the
-- repository. The form (components/CreateSecretForm.tsx) encrypts a letter under a fresh AES-GCM
-- key, posts the ciphertext to the server and makes a link that carries the key behind its `#`. The
-- reveal page (pages/RevealPage.tsx) reads the link, asks the server whether the letter is there,
-- opens it on demand, and shows and burns it. The Go server of backend keeps the ciphertext and gives
-- it out once. Two scripts in frontend/web-app/scripts audit and test the built program.
--
-- Which file models what:
--   Text       JavaScript strings as lists of UTF-16 units, and the string methods the code uses
--   Http       the requests and replies of `fetch`
--   Errors     what is thrown: the error classes of lib/types.ts and lib/crypto.ts, `DOMException`,
--              other errors, and values that are no errors
--   Utf8       lib/utf8.ts; Utf8/Encoder and Utf8/Decoder describe `TextEncoder` and `TextDecoder`
--   Base64Url  encodeBase64Url and decodeBase64Url of lib/crypto.ts; Base64Url/Platform is btoa, atob
--   Crypto     the rest of lib/crypto.ts
--   SecretLink lib/secretLink.ts
--   Api        lib/api.ts: Messages and Codes (toSecretApiError and its helpers), Fetch (safeFetch),
--              Requests (the six exported calls)
--   Platform   the browser and the server as a record: randomness, the network, Web Crypto
--   Scene      SecretSceneState of lib/types.ts and SceneData of pages/RevealPage.tsx
--   RevealPage pages/RevealPage.tsx: Errors (mapOpenError, mapFragmentKeyError), Lifecycle (all
--              orders of its events), Opening, Loading, Refusals (failed replies)
--   CreateSecretForm  components/CreateSecretForm.tsx: state and handlers; Link is the `try` of
--              handleSubmit; Laws has all orders of its events,
--              Presence is its useDelayedPresence, Display what it highlights, Qr its QR code
--   SecretEnvelopeScene  components/secret-letter/SecretEnvelopeScene.tsx: consent, hold and opening;
--              Opening has all orders of events, Status the change between the status screens
--   SecretStatusScreen  components/secret-letter/SecretStatusScreen.tsx: Sky has all orders of events
--   Envelope   components/secret-letter/Envelope.tsx: the buttons of the open letter
--   EnvelopeTimeline  hooks/useEnvelopeTimeline.ts: what its two animations schedule
--   TactilePress  hooks/useTactilePress.ts
--   App        App.tsx: which page a path leads to
--   EndToEnd   from the form to the page; Links is about the link that the form shows, Accepted
--              about the request that it posts, Refused about a second reader. Served puts the
--              browser in front of the routes of the Go server: Publishing is the form over it,
--              Readers and Later are the reveal page over it
--   Backend    backend/internal/secret: Letter (the three Lua scripts of redis_service.go), Service
--              (ConsumeSecret and GetSecretStatus; OneTime has all orders of concurrent requests,
--              Fate the abstract letter, Closed its status), Validation (validation.go),
--              RevealSession (reveal_session.go), Secrets (the methods of RedisService over all
--              letters, one call after the other). Handlers (the error replies), Replies and Router
--              (handlers.go and the routes of server.go) are backend/internal/httpapi
--   PerfAudit  frontend/web-app/scripts/perf-audit.mjs: Assets (what it finds in the manifest of the
--              build), Main (what it starts and stops, its budgets and exit code), Scenario and Reveal
--              (its scenarios of the reveal page, over routes that stand for the server)
--   E2e        frontend/web-app/scripts/e2e.mjs: what its `run` starts and stops; Flow is what it does
--              in the browser, Responses what it checks of two replies
--   Probes     the loops that both scripts have: a free port, a server that is waited for
--   Effects    what the scripts start and stop
--   Tests      concrete runs, over a toy browser (Tests/Browser)
--
-- State and asynchrony. A React state is a record and a handler a function on it; an asynchronous
-- handler is split where it awaits, and what happens in between is a step of its own. What reaches
-- outside the page is an action over the platform's world. A promise that rejects is `throw`.
-- `RevealPage.Lifecycle.PageStep` and `CreateSecretForm.Laws.FormStep` are the step relations over
-- all the handlers, replies and timers.
--
-- Numbers. Byte counts and statuses are natural numbers; the form's limit of 10240 bytes keeps every
-- sum far below 2^53, where JavaScript's numbers are exact. A byte is a number below 256 and a UTF-16
-- unit one below 2^16, as hypotheses of the theorems that need them.
--
-- Fuel. The padding loop of decodeBase64Url runs on fuel 3, the most that a remainder by 4 can ask
-- for; decimal numbers in messages are written with fuel 20, for numbers below 10^20. `visit` of the
-- audit is as deep as the manifest has keys, and one more; the wait for a server is given a round for
-- every 250 milliseconds of its limit, and two more; the search for a port has its twenty rounds.
--
-- The server of one letter is a record of its two Redis keys and the calls that are under way; a Lua
-- script is one step, and so is what comes between two of them. Clocks are numbers given to each
-- step, in any order. `Backend.Service.OneTime.LetterStep` is the relation over all of them. The server of
-- `Backend.Secrets` has all letters and sessions, by the hash of a token and by the id, and runs a call to
-- its end; what the call draws from the clock and from the random source is given with it.
--
-- Parameters. The server as the browser sees it, `fetch`, the random values and Web Crypto are fields
-- of `Platform.Platform`; `Platform.Laws.IsWebCrypto` has the documented behaviour of Web Crypto that
-- the round trip relies on, `IsTagged` the length of what AES-GCM gives, and `IsAvailable` that it does what
-- it is asked. `Backend.Secrets.Runtime` is what the server takes from Go's library. In `EndToEnd.Served` the
-- network is no parameter: its requests are answered by the routes of the server.
--
-- Not modelled: markup, styles, the drawing of animations, React's scheduling inside one handler; of
-- the Go server the health check, the middleware with its rate and size limits, the encryption at rest and
-- the lifetimes of Redis keys (which may go at any time); of the audit the measurements of the home
-- page and of the QR code, what a browser makes of preflight requests, and the reports; what a process does
-- that a killed command has left behind; the deployment.
pub mod Prelude
pub mod Text
pub mod Http
pub mod Errors
pub mod Api
pub mod Platform
pub mod Crypto
pub mod Scene
pub mod RevealPage
pub mod CreateSecretForm
pub mod EndToEnd
mod Tests
pub mod Utf8
pub mod App
pub mod Backend
pub mod Base64Url
pub mod SecretLink
pub mod SecretEnvelopeScene
pub mod SecretStatusScreen
pub mod TactilePress
pub mod Envelope
pub mod EnvelopeTimeline
pub mod PerfAudit
pub mod Probes
pub mod Effects
pub mod E2e
