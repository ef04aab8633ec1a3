-- ===== src/Lib.antt =====
-- Verification of the ChatGPT web gateway, an OpenAI-compatible HTTP server that drives a
-- logged-in ChatGPT page. Paths are from the repository's root. A request becomes a canonical
-- conversation; a planner decides what the web conversation needs; a page is leased for it; what
-- the page shows is streamed, searched for function requests and parsed; and the turn is saved
-- as an aggregate.
--
-- - Stream (src/stream): what leaves the gateway while an Assistant turn grows on the page:
--   normalize.ts, stable-prefix.ts, completion.ts and text-stream.ts. The polling loop of
--   completion.ts runs on fuel over an abstract page, clock and abort signal; the fuel that
--   Completion/Bound gives it is one round for each millisecond of the timeout, and two more.
-- - Context (src/context): types.ts; Fingerprint (fingerprint.ts), Multimodal and Uploads
--   (multimodal.ts), Canonicalize (canonicalize.ts), Planner (planner.ts), and Sync (sync.ts),
--   an earlier planner. The hash of a value is the parameter Digest; Spelled is one for tests.
-- - Browser.PagePool (src/browser/page-pool.ts): the pool's sets and leases. A call is split
--   where it awaits the browser, and a step relation interleaves the parts.
-- - Tools (src/tools): Detection (detection-buffer.ts) holds back what may start the private
--   marker of a function request, and Parser (parser.ts) reads the requests. JSON.parse and
--   JSON.stringify are parameters. Canonicalize (canonicalize.ts) sorts and checks the tools.
-- - Structured (src/structured/output.ts): structured answers, with Ajv as a parameter.
-- - Chatgpt (src/chatgpt): conversation-url.ts, and Composer (composer-input.ts), how a prompt is
--   entered into the page, as the inputs in order.
-- - Conversations (src/conversations): PageRegistry (page-registry.ts), the pages bound to
--   conversations, split at its awaits, with localeCompare as a parameter; Pages
--   (conversation-pages.ts), its predecessor; Aggregate (aggregate-builder.ts), what is saved
--   after a turn, with randomUUID as a parameter, and the records of src/persistence/types.ts;
--   Queue (conversation-queue.ts), the chain of promises of each key, with both ways a promise
--   settles; Normalized,
--   RequestMessages, RequestTranscript and RequestContext (request-context.ts, errors.ts and
--   src/api/normalized.ts), the checks of a request and its canonical form; Prompts (prompts.ts,
--   src/tools/prompt.ts), with JSON.stringify as a parameter; Engine (conversation-engine.ts), a
--   turn from the preparation of its context to the release of what it holds. Engine.Program gives
--   the calls of the page registry, driver, store and resolver to functions of all calls before
--   them, which may answer anything; Engine.Release counts what a turn takes and gives back;
--   Engine.Anonymous finds the conversation that a request without a key goes on with.
--
-- Base holds shared names and lists; Text holds JavaScript strings, as lists of UTF-16 code
-- units. Times and counts are natural numbers, which a run of the gateway keeps below 2^53.
-- Messages of errors are left out. Not modelled: the HTTP layer (src/api), the rest of the
-- Playwright driver (src/chatgpt), SQLite (src/persistence), attachments and images, and of the
-- engine streaming turns and the queue around a turn.
pub mod Base
pub mod Text
pub mod Stream
pub mod Context
pub mod Browser
pub mod Tools
pub mod Structured
pub mod Chatgpt
pub mod Conversations
