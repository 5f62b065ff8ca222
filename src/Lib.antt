-- ===== src/Lib.antt =====
-- A model of vti-didcomm-js, a JavaScript library for DIDComm v2 messaging in a browser: byte codecs,
-- DID references, methods and their resolver, the JWE envelopes, a guard for the endpoints that it talks to,
-- and a session with a mediator.
--
-- The parts and the files that model them (paths from the repository's root):
--   Base64url        src/base64url.js: `encode`, `decode`
--   TspFrame         src/tsp-frame.js: `isTspFrameText`, `isTspFrameBytes`
--   Multibase        src/multibase.js: `base58btcEncode`, `base58btcDecode`, `encodeMultikey`,
--                    `decodeMultikey`
--   NetGuard.Ipv4, NetGuard.Ipv6
--                    src/net-guard.js: `parseIpv4`, `v4Blocked`, `parseIpv6`, `v6Blocked`, `isBlockedIp`
--   NetGuard.Policy  src/net-guard.js: `assertSafeEndpoint`, the schemes and the allow-list
--   NetGuard.Fetch   src/net-guard.js `guardedFetch` and src/net-guard-node.js `guardedLookup`
--   DidScid          src/did-scid.js: the `src` locator of a DID URL
--   DidScid.Book     src/did-scid.js: `createScidSourceBook`
--   DidScid.Convert  src/did-scid.js: `scidToWebvhDid`, `webvhToScidDidUrl`, `rewrite`
--   DidScid.Resolution
--                    src/did-scid.js: `toScidDidDocument`, `resolveWith`
--   DidKey           src/did-key.js: `resolve`, `ed25519PublicKeyToX25519`, `modPow`
--   DidPeer          src/did-peer.js: `resolve`, `decodeService`
--   Resolver         src/resolver.js: `createResolver`; Resolver.Runs has the states that it reaches
--   ConcatKdf        src/concat-kdf.js: `uint32be`, `lengthPrefix`, `deriveKey`
--   Envelope.ContentEncryption
--                    src/a256cbc-hs512.js `encrypt`, `decrypt` and src/aes.js `wrapKey`, `unwrapKey`
--   Envelope.Agreement
--                    src/key-agreement.js, src/x25519.js, src/p256.js, src/ecdh-1pu.js, src/ecdh-es.js
--   Envelope.Jwk     src/jwk.js
--   Envelope.Pack    src/pack.js `pack` and src/anoncrypt.js `packAnoncrypt`
--   Envelope.Unpack  src/unpack.js `unpack`
--   Forward          src/forward.js `buildForward`
--   MediatorTransport
--                    src/mediator-transport.js: messages, threads and accepted senders
--   MediatorTransport.Sender
--                    src/mediator-transport.js: `unpackInbound`, the choice of the sender's key
--   MediatorTransport.Messages
--                    src/mediator-transport.js: `peekSkid`, `decodeJwtExp` and the message builders
--   MediatorTransport.Session
--                    src/mediator-transport.js: the class MediatorSession after its socket opened
--   MediatorAuth     src/mediator-auth.js: `parseMediatorEndpoints`
--   MediatorAuth.Exchange
--                    src/mediator-auth.js: `authenticateToMediator`
-- Prelude holds what they share: lists and texts over native numbers, errors, and their lemmas. Json has
-- the values of JSON, and Platform the functions of the platform with the laws that the library relies on.
--
-- A string is the list of its UTF-16 code units, a byte array a list of numbers below 256, and a Map
-- or a Set the list of its members in insertion order. A function that throws returns a `Result`.
-- Loops are structural recursion on the input, but for three with fuel: the loop of Multibase that
-- pushes the digits of a carry has the carry as its fuel, which every turn divides by the radix, and
-- the round trip of base58btc shows that it is enough; that of `modPow` has the number of bits of the
-- exponent, which every turn halves; the one of DidPeer that prints a number has one more than the
-- number, which every turn divides by 10. The session reads its frames from TspFrame and Base64url and
-- its identities from DidScid; the fetch guard calls the URL policy, which calls the two IP parsers;
-- the envelopes call Base64url, ConcatKdf and DidScid; did:key and did:peer call Multibase.
--
-- Parameters, for code outside the repository: the WHATWG URL parser, `fetch`, the DNS lookup, and the
-- record Platform with JSON, UTF-8, SHA-256, HMAC, AES and the two Diffie-Hellman functions. Its laws
-- are stated for the values of JSON that come back from their text (`is_plain`). What is drawn at
-- random, and the clock, are arguments. The steps of a session take `peekSkid` and `unpackInbound` as
-- parameters, since they do not depend on how a frame is opened; MediatorTransport.Sender has them. A method of the session that awaits is split there: what is left of it is a task,
-- and the step relation lets frames, tasks, calls, timers and socket events come in any order. The
-- resolver's calls and the settling of its resolutions are steps in the same way.
--
-- Not modelled: arguments of another JavaScript type than the documented one, error messages, logging,
-- the wiping of key buffers, the opening of the socket, and the files of src/ that are not named
-- above: did:webvh, and the REST and DIDComm clients of a VTA. The host names of an allow-list are put in
-- lower case for the letters A to Z; other letters are left to the URL parser, which reads the entry next.
pub mod Prelude
pub mod Base64url
pub mod TspFrame
pub mod Multibase
pub mod NetGuard
pub mod DidScid
pub mod MediatorTransport
pub mod MediatorAuth
pub mod ConcatKdf
pub mod Json
pub mod Platform
pub mod Envelope
pub mod Resolver
pub mod DidKey
pub mod DidPeer
pub mod Forward
