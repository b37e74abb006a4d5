-- ===== src/Lib.antt =====
-- Verification of muthur, the central brain of a Kubernetes monitoring system: it admits alerts
-- of collectors, drops repeats, groups what belongs together, asks a language model for an
-- analysis, may silence noise, and notifies receivers.
--
-- Which file models what, with paths from the root of the repository:
-- - Prelude: names that all files share: numbers, lists, results, maps as association lists, Go
-- strings as lists of code points, decimal printing and parsing.
-- - Alert: the payload of proto/alert.proto. AlertKey: the identifying texts of
-- internal/alertkey and internal/dedup.
-- - Store: internal/store. Store.Laws states what store.go documents of every backend, over the
-- live value of a key at an instant; Store.Memory is memory.go, and Store.Trace is what other
-- callers do to a store in between.
-- - Dedup: internal/dedup, `IsDuplicate` and `IsDuplicateResolved`.
-- - Auth: internal/auth. Identity is identity.go, Signer is sign.go, Replay is replay.go,
-- Bootstrap and Tenants are bootstrap.go and tenants_reloader.go, Renew is renew.go.
-- - Auth.HttpSig and Auth.Sealed: httpsig.go and sealed.go. Http and Signed:
-- internal/signedsrv, with `VerifyClientLeaf` of internal/auth/trust.go; Signed.Endpoints are
-- its three calls and Signed.Keys its key document.
-- - Grpc: internal/grpcsrv (interceptors.go and server.go) and internal/ingest.
-- - Routing: internal/routing. Limiter: internal/llmlimit. Incident: internal/incident.
-- Silence: internal/silence. Evaluator: internal/evaluator (analyzer.go, schema.go, types.go).
-- - Evaluator.OpenAi: openai.go of internal/evaluator, and Evaluator.OpenAi.Choice `New` of
-- analyzer.go. Embed: internal/embed. LlmCache: internal/llmcache. Feedback: internal/feedback.
-- History: internal/history.
-- - Config: internal/config. Config.Load is `Load`, and Config.Provider what cmd/muthur/main.go
-- makes of it for the evaluator.
-- - Pipeline: internal/pipeline, which composes the above: `Process` deduplicates, correlates,
-- evaluates under the limiter, silences, and delivers by routing.
-- - Tests: runs at concrete inputs.
--
-- State is passed explicitly: a store is any type with the operations of `Store.Store`, and
-- what uses a store is generic over it and over the laws. Instants and durations are natural
-- numbers of nanoseconds, Unix timestamps integers of seconds; an operation reads the clock
-- once. A locked section is one step; what other goroutines do in between is a list of writes
-- at rising instants. Loops are structural recursion: the retries of the evaluator are the
-- number that is left, and no fuel is used. A Go map is an association list with distinct keys;
-- nil maps, nil pointers and the zero time are `none`. The panic on the nil URL of a
-- certificate is an error value of its own; tokens of the limiter are counted exactly, without
-- the rounding of float64.
--
-- Parameters, for code that is not in the repository: SHA-256, ECDSA, HPKE, AES-GCM, base64,
-- X.509 and PEM, protobuf, URL and duration parsing, the YAML and JSON codecs, floating point,
-- FNV, sorting, the HTTP client of a language model, the Alertmanager API, the file system, the
-- environment, strconv. The receivers and what Pipeline calls of the other components are the
-- operations of `Services`.
--
-- Not modelled: metrics, logs and audit records, deadlines and cancellation, the receiver file
-- and wiring, the Redis backend, the transports of providers and receivers, prompts, TLS,
-- messages.
pub mod Prelude
pub mod Alert
pub mod AlertKey
pub mod Store
pub mod Config
pub mod Dedup
pub mod Auth
pub mod Routing
pub mod Limiter
pub mod Incident
pub mod Evaluator
pub mod Embed
pub mod LlmCache
pub mod Feedback
pub mod History
pub mod Silence
pub mod Pipeline
pub mod Grpc
pub mod Http
pub mod Signed
pub mod Tests
