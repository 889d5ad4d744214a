-- ===== src/Lib.antt =====
-- LQXP: a model of the chat server's core and the theorems about it.
--
-- The program (rust/src) is an asynchronous web server. Clients open a web socket, on which
-- websocket/protocol.rs answers numbered operations over the shared state of core/presence.rs (the
-- sessions, the rate limiter) and the SQL database of core/database.rs (accounts, rooms, messages).
-- Requests that are anonymous or costly are gated by core/cap.rs, which joins a quota token
-- (core/rln.rs), a delay proof (core/vdf.rs) and an ephemeral key (core/pqc.rs). An anonymous mailbox
-- in memory (services/phantom.rs) takes envelopes behind these gates or behind a token of
-- services/privacy_pass.rs.
--
-- What each file models:
--   Common            lists, maps, UTF-8 text, decimal numbers; Common/Handler: core/result.rs
--   Core/ConstantTime `constant_time_eq` of core/cap.rs, which core/rln.rs, core/vdf.rs and
--                     services/privacy_pass.rs repeat
--   Core/RateLimit    `rate_limit_hit` of core/security.rs; Window and Purge are about its quota
--   Core/Once         the maps of consumed keys of core/rln.rs and core/vdf.rs
--   Core/Rln          core/rln.rs; SingleUse is about a token's use
--   Core/Hex          `hex_encode` and `hex_decode` of core/pqc.rs; RoundTrip is about both
--   Core/Vdf          core/vdf.rs; SingleUse is about a challenge's use, Power and Completeness hold
--                     lemmas about an honest proof
--   Core/Pqc          core/pqc.rs; OneTime and Served are about the use of a key
--   Core/Token        the text form and the store of the tokens of cap.rs and privacy_pass.rs
--   Core/Cap          the tokens of core/cap.rs; Redeem is the challenge and its redemption, Checks is
--                     about what a redemption checks
--   Phantom/Store     `DeadDropStore` of services/phantom.rs; Sums, Evict, Bounds and Claim are about it
--   Phantom/Mailbox   `deposit` and `poll` of services/phantom.rs; Requests is about them
--   Phantom/PrivacyPass services/privacy_pass.rs; Nonces is about its nonce store, Redeem about
--                     `redeem_pass_token`
--   Room/Record       `RoomRecord` of core/models.rs and the role predicates of websocket/protocol.rs
--   Room/Decide       what ten room operations of websocket/protocol.rs check and change; Limits,
--                     Authority, Transfer and Unmute are about it
--   Room/Server       the state that these operations share, and their helpers
--   Room/Handlers     the ten operations whole; Effects and Calls are about their sequences, Expel
--                     about what a ban or a kick does to sessions
--   Room/Acts         the steps that the operations share: rate limit, answers, early stops
--   Room/Icon         `store_room_icon_from_payload` of websocket/protocol.rs
--   Room/Manage       the creation, the title, the description and the deletion of a room, of
--                     websocket/protocol.rs; Created is about a creation, Owner
--                     about a deletion, Settings about a description
--   Chat/Record       messages, reactions, attachments and polls of core/models.rs and core/presence.rs
--   Chat/Reactions    `toggle_reaction_in_message` of websocket/protocol.rs; Users, Emoji, Cases and
--                     Toggle are about it
--   Chat/Encrypted    `parse_encrypted_payload`; Bounds is about its limits
--   Chat/Messages     the stored messages, `store_room_message` and shared checks
--   Chat/Attachment   `parse_attachment`
--   Chat/Preview      `find_first_url` of linkpreview.rs, `request_link_preview`, and the tasks that
--                     `send_chat_message`, `edit_message` and `request_link_preview` leave behind
--   Chat/Send         `send_chat_message`; Spacing is about its interval
--   Chat/Amend        `toggle_message_reaction`, `delete_message`; Authors is about who deletes
--   Chat/Edit         `edit_message`, `delete_user_messages_in_room_and_broadcast`; Author is about
--                     who edits
--   Chat/Poll         `vote_poll`; Votes is about a vote
--   Chat/History      `send_room_history`, `relay_room_signal`
--   Chat/Keeps        what the stored messages promise and how actions keep it; the modules named Kept
--                     are about one operation each, Calls and Invariant about their sequences
--   Account/Names     the checks of names and passwords of core/security.rs
--   Account/Files     `sanitize_filename` of core/security.rs, the upload directory of
--                     services/user.rs and services/messaging.rs; Safety is about the names of files
--   Account/Images    `strip_image_metadata` of services/user.rs; Png and Jpeg are about it, Detect is
--                     `detect_profile_image` of websocket/protocol.rs
--   Links/Address     the address filter of linkpreview.rs; Blocks is about it
--   Links/Cache       the cache of previews and `parse_og` of linkpreview.rs
--   Links/Activity    core/activity.rs
--   Examples          runs at concrete inputs
--
-- How the code is read. A lock's guarded section, or a handler whose effects no other task can see
-- halfway, is a function from state to state; a handler that fails is a value with its state. The
-- clock is an argument, one for each reading. What a query of the database answers, and whether it
-- fails, is an argument, and the `rooms` table is a map. Keyed hashes, SHA-256, random bytes, big
-- number parsing, modular powers, ML-KEM and `str::trim` are parameters. Strings are their UTF-8
-- bytes. A hash map is a list in some order. Sums with the clock are taken on unbounded numbers: a
-- `u64` of milliseconds does not overflow for half a billion years. A counter that the code
-- saturates or wraps is written out.
--
-- Fuel. The eviction loops of the dead-drop store and of the nonce store take the number of entries
-- as fuel, which each turn lowers. The search for a prime of core/vdf.rs has no bound in
-- the code, takes its fuel as an argument, and answers `none` where it runs out. The loop over
-- the chunks of a PNG takes the number of bytes left, of which each turn uses up twelve at least,
-- and the loop that makes place in the cache of artwork the number of entries. The loop over the
-- segments of a JPEG takes the number of bytes left and answers `none` where its fuel runs out.
--
-- Messages. `Room.Server.Server` holds the sessions, rooms, messages, polls and uploaded files. A
-- request's payload is a JSON value; the printer of JSON, the base64 decoder, the Unicode tests and the
-- fresh identifiers are parameters. The request's own id, which an answer repeats, is left out. A
-- preview that was fetched arrives in a step of its own. Base addresses, the resolver and the patterns for
-- tags are parameters of Links.
--
-- Not modelled: SQL, HTTP routes, downloads, configuration, accounts and administration, the web
-- client's commands, password hashes, the fetching of previews and artwork, the prekeys and block
-- tags of services/phantom.rs with services/phantom_crypto.rs, and of websocket/protocol.rs joining
-- and leaving, calls and the access to them, the upload of an icon on its own, kill reports,
-- profiles and presence. An operation is one step: the sessions may change
-- between two operations, and not while one waits for the database or for a file.
pub mod Common
pub mod Core
pub mod Phantom
pub mod Room
pub mod Chat
pub mod Account
pub mod Links
pub mod Examples
