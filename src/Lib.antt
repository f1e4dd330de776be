-- ===== src/Lib.antt =====
-- NullKey is an end-to-end encrypted chat: browsers hold the keys, and a relay in memory passes
-- encrypted messages between the members of a room. This library models the relay, backend/src,
-- the code that decides who gets into a room and who is sent what, and the browser's side,
-- frontend: its cryptography, the handshake with each peer, its socket, its storage and the page
-- that joins them.
--
-- The parts and their files:
--   * Value, JsMap: JavaScript values as messages hold them, with `===` and truthiness, and `Map`s
--     in their insertion order.
--   * Config (config.ts): the settings, and the size of a frame derived from them. Config/Read is how
--     they are read from the environment.
--   * Net: the sockets. A socket is a number; `send` and `close` are appended to a log, and a socket
--     that is closed is no longer open.
--   * Room (rooms/room.ts): a room, its limit, its expiry. Room/Capacity, Room/Expiry;
--     Room/Participants is the room as the multiset of its clients, a quotient of its list.
--   * Manager (rooms/manager.ts): the registry of rooms and of invite tokens, broadcasts and the
--     removal of rooms that have expired. Manager/Invariant, Tokens, Members, Broadcast, Cleanup;
--     Manager/Step is the registry seen as a step relation.
--   * Protocol, Validation (ws/validation.ts): payloads and the checks on them.
--   * ReplayGuard, RateLimit (ws/handler.ts, server.ts): nonces that were seen, and the counters of a
--     window.
--   * Relay, Handler, Sending, Events (ws/handler.ts, relay/forwarder.ts, ttl/cleanup.ts): the
--     handlers of the events of a socket, as functions on the state of the whole relay. They keep the
--     order of the calls in the code: a handler that changes a connection before it refuses a
--     message does so here. Events/Actions lists the actions that handlers are made of, with what
--     each needs; Events/Handlers and Events/Messages take every handler apart into them;
--     Events/Safety, Isolation and Invariant are about whole messages, the last about every state that
--     the relay can reach.
--   * Scheduler (ttl/cleanup.ts, ttl/scheduler.ts): the intervals on which the relay cleans up.
--     Scheduler/Intervals.
--   * Server (server.ts, metrics.ts): the checks on an upgrade request and the count of connections of
--     each address. Server/Connections, Server/Origin; Server/Masking is the hash under which the log
--     names an address.
--   * PeerSession (frontend/services/peer-session.service.ts): the browser's handshake with each peer.
--     PeerSession/Handshake has the calls and the invariant, PeerSession/Progress how a handshake ends.
--   * ClientSocket (frontend/src/socket/client.ts): the browser's socket, its queue and its timeouts.
--     ClientSocket/Outbox, ClientSocket/Timeouts; ClientSocket/Listeners has the sets of listeners.
--   * SocketService (frontend/services/socket.service.ts): the socket with the listener that resumes
--     it. SocketService/Resume.
--   * Encoding (frontend/utils/encoding.ts): hexadecimal and base64url texts. Encoding/Hex, Base64,
--     Base64Url; Encoding/Digits relates them to the relay's checks.
--   * Crypto (frontend/src/crypto/encryption.ts, keygen.ts), Crypto/Session (session.ts and
--     frontend/services/crypto.service.ts): messages, files and the secrets of a session.
--     Crypto/Agreement: what two sessions can read.
--   * KeyStorage (frontend/src/storage/index.ts): the stored key pair. KeyStorage/Persistence.
--   * Invite (frontend/services/room.service.ts and the same functions of frontend/app/page.tsx):
--     invite links. Invite/RoundTrip.
--   * Page (frontend/app/page.tsx): the state of the page. Page/Start has the keys that it starts with,
--     Page/Storage what survives a reload, Page/Rooms entering and leaving a room, Page/Receiving the
--     frames of the relay, Page/Sending messages and files, Page/Envelope the form of a file,
--     Page/Typing the typing indicator. The listener takes the very frames that Net has for the relay,
--     and Page/Sending/Delivery takes a message from one page through the relay's `outgoing` to
--     another, Page/Sending/Files a file. Page/Exchange follows two pages from their keys to a text.
--     Page/Expected is about the fingerprint that an invite link names, and its child Shown about the
--     messages that are shown.
--   * FileService (frontend/services/file.service.ts): the check on the size of a file, and saving one.
--   * Hooks (frontend/hooks/useNullKey.ts, useRoom.ts, useChat.ts, useTyping.ts): a second copy of the
--     page's logic, in parts that share one state: Hooks/Room, Hooks/Chat, Hooks/Typing, and
--     Hooks/Events, which has the listeners that call them. They use the state, the messages and the
--     socket of Page and ClientSocket. Hooks/Alike compares them with the page, Hooks/Guard is about
--     the fingerprint of an invite link, Hooks/Files about the files that they receive,
--     Hooks/Relayed about what becomes of the texts that they send.
--   * Pwa (frontend/components/PwaRegister.tsx): the banners to install and to update, and the event
--     that resumes a SocketService. Pwa/Banners.
--   * Manager/TokenLife is the abstract life of a token; Events/Lifecycle shows that the relay follows
--     it.
--   * Tests: concrete states, and the examples of the results.
--
-- How state is represented: a ClientConnection is one object that rooms refer to and handlers
-- change, so the store `clients` of Relay holds it under its socket and a room lists sockets.
-- Methods that return a Boolean return it beside the new state. `Date.now()` is an argument: a
-- handler that reads the clock twice reads one value here. Times and counts are natural numbers; a
-- subtraction that the code makes on them stops at 0, which no comparison that follows it can
-- tell, since times start at 0. Loops run over lists by structural recursion; the loops on fuel
-- are `pad` of Encoding/Base64, which is given three rounds, and `base_36` of Server/Masking,
-- which is given seven; Encoding/Base64Url and Server/Masking show that they are enough. A handler
-- of the page is one step: what it waits for is taken to settle before the next event, and a state
-- that it reads is that of the last drawing of the page.
--
-- Parameters: of the relay (Env), `JSON.parse` gives an Incoming, and the byte length of a
-- payload's JSON text and the conversion of a value that is no string are functions; `atob` is an
-- argument of `on_key_received`, and `new URL` a field of Gate. Of the browser, Primitives has
-- x25519, SHA-256, HKDF, AES-GCM and the text encoder, Browser adds base64, `trim` and the JSON of
-- a file's header, and random bytes are arguments, as are `JSON.parse` of the text of a message,
-- the environment and the rounding of a number that is read from it. The hypotheses on them, that
-- AES-GCM opens what it sealed, that decoding undoes encoding, for texts that begin with no byte order
-- mark, and that the key exchange is symmetric, stand with the theorems that need them. An
-- exception from a socket that is closing is swallowed by the code and does not occur here.
--
-- Not modelled: logging, Express and its keep-alive, the declarations of relay/message.ts, which
-- nothing calls; of the frontend the rendering, and failures of IndexedDB and of encryption. The
-- start of the hooks is that of the page. A text whose JSON is null is taken to be no JSON.
pub mod Base
pub mod Value
pub mod JsMap
pub mod Config
pub mod Net
pub mod Room
pub mod Manager
pub mod Protocol
pub mod Validation
pub mod ReplayGuard
pub mod RateLimit
pub mod Relay
pub mod Handler
pub mod Sending
pub mod Events
pub mod Server
pub mod ClientSocket
pub mod Encoding
pub mod Crypto
pub mod KeyStorage
pub mod Invite
pub mod PeerSession
pub mod Page
pub mod Tests
pub mod Hooks
pub mod SocketService
pub mod Pwa
pub mod Scheduler
pub mod FileService
