-- ===== src/Lib.antt =====
-- MyFlowHub ClipboardNode: a verification development of the Go program that keeps the clipboards of
-- several devices in step over topics of a hub.
--
-- The parts of the program, and how they meet. `core/engine` owns one runtime at a time and starts,
-- stops and reconfigures it over `core/myflowhub`, the client that connects to the hub and obtains the
-- node's identity there with the keys of `core/auth`; `core/configstore` keeps the configuration in a
-- file. `core/runtime` is the core: a `Runtime` takes texts
-- from the local clipboard (HandleLocalText) and messages from the hub (HandleTopicBusMessage), and
-- decides what is published, applied, held pending or ignored, by its configuration (config.go), the
-- wire format (event.go) and two bounded sets (dedupe.go) that recognise events seen before and texts
-- it wrote itself. Start, Stop, UpdateConfig and OnConnectivityRestored keep the hub's subscriptions
-- and the clipboard watcher in step with the configuration. `cmd/clipboardnode-bridge` turns decisions
-- into activities for the user interface and keeps a history of them (history_store.go).
--
-- The files:
--   Base            shared names, lists, numbers, texts, errors and results
--   Dedupe          core/runtime/dedupe.go: boundedStringSet (Add, Contains, Consume, trim)
--     Members, Bounds, Window, Stale: what it holds, and what stale entries of its order do
--   Config          core/runtime/config.go: NormalizeConfig, NormalizeTopicRoutes
--     Routes, Normal: what is accepted, and what a normalised configuration is
--   Event           core/runtime/event.go: events and manifests, their validation and coding
--     Digest, TextEvents, Manifests, Expansion; Samples is a concrete platform
--   Runtime         core/runtime/runtime.go: the state, recordDecisionLocked, New
--     Bus           topic lists and the loops that subscribe, unsubscribe and publish
--     Lifecycle     Start, Stop, UpdateConfig, OnConnectivityRestored
--     Local         HandleLocalText, publishTransferManifest, runClipboardWatcher
--     Remote        HandleTopicBusMessage, handleTransferManifest, ApplyPending
--     Pending       addPendingLocked, deletePendingLocked, Pending
--     Handlers      Recorded, Writes, Duplicates, Retries, FanOut, Publication, Loops, Held
--     Sync          Follows, Updates, Stops: which topics are subscribed; Named: as which node
--   History         cmd/clipboardnode-bridge/history_store.go: historyStore
--     Clean, Loading, Settings, Prepending, Files: what it holds, in memory and in its file
--   Keys            core/auth/keys.go: KeyStore, loadOrCreateNodeKeys, signLogin, loginSignBytes
--     Persistence, Signing: the pair survives a restart; what a signature covers
--   Store           core/configstore/store.go: Load, migrateLegacyHistoryDefaults, Save
--     Saved         what Save leaves for Load
--   Client          core/myflowhub/client.go: Client, New, Connect, Close, ClearAuth, the snapshot
--     Auth          Register, Login, EnsureIdentity
--     Topics        Subscribe, Unsubscribe, Publish, onUnmatchedFrame, parseTopicBusPublish
--     Requests, Identity, Closing: what is asked of the hub, for which device, and what Close leaves
--   Engine          core/engine/engine.go: Engine, New, Start, Stop, UpdateConfig, Status
--     Steps         SendText, ReadClipboard, ApplyPending, consumeRuntime
--     Hub           the client as the engine's transport, and what the runtime's calls leave of it
--     Startup, Updates, Traces, Coherence: starts, changes of the configuration, and whole runs
--   Bridge          cmd/clipboardnode-bridge/main.go, bridge/contract.go: stdioHost, status, emit
--     Commands      handle, serve; Forward: emitActivity, emitTransferIfNeeded, forwardDecisions
--     Web           serveWeb's endpoints, authorized, validateLoopbackListen
--     SetConfig, Forwarded, Guards: new settings, what the history keeps, who is admitted
--   Clipboard       platform/clipboard_unix.go: the commands, ReadText, WriteText, WatchText
--     Watching      what the watcher sends
--   Mobile          nodemobile/nodemobile.go: the manual clipboard, TakeLastAppliedText, Status
--     Takes         what TakeLastAppliedText hands over after a text was applied
-- A module Tests applies the theorems at concrete inputs.
--
-- How the code corresponds. A method is a function from the state to the state, the decision and the
-- error it returns; what it calls outside (hub, clipboard, watcher) is appended to `log` with the
-- answer, which `Env` computes from everything called before, so that any behaviour of the outside is
-- covered. A method runs as one step, although the code releases its lock around calls outside.
-- Errors are the constructors of `Error`. A text is the list of its code points, with byte lengths as
-- in UTF-8; an int is an unbounded signed integer, and no 64-bit overflow occurs at the sizes the
-- validation admits. A Go map is a list of keys or pairs. Every loop is a recursion on a list, so no
-- fuel is used, but for decimal printing (Base/Decimal): at most 20 digits, which is enough below
-- 10 ^ 20 and so for every uint64. The client, the keys and the configuration store take the SDK, the
-- file system, the random source and the codings as parameters: a `World`, a `Vault`, a `Codec`.
--
-- Parameters. SHA-256 and encoding/json are fields of `Platform`; what is assumed of them is a
-- hypothesis of the theorem that needs it (IsSha256, IsJsonEvents, IsJsonManifests, IsEscaping), and
-- Event.Samples has a platform that satisfies the ones on coding. The history's decimal printing, JSON
-- decoding and disk are `Disk`; a file is replaced whole or stays as it was, as by a rename.
--
-- Not modelled: the flags, the token's generation and the event bus of
-- cmd/clipboardnode-bridge/main.go, the commands that nodemobile/nodemobile.go passes on to the engine
-- and the Windows clipboard adapter, which are system calls, compositions of the parts above or calls
-- of an SDK outside the repository; how the watcher of platform/clipboard_unix.go is paced and
-- cancelled; deadlines, and the two seconds for which the engine's Stop waits for its goroutine;
-- RandomEventID, which reads the system's random source; the Flutter application, the scripts and the
-- documents.
pub mod Base
pub mod Dedupe
pub mod Config
pub mod Event
pub mod Runtime
pub mod History
pub mod Keys
pub mod Store
pub mod Client
pub mod Engine
pub mod Bridge
pub mod Clipboard
pub mod Mobile
