-- ===== src/Examples/Chat.antt =====
-- Runs of the message operations in the room of Examples/Room.
use lqxp.Common.{
  ℕ, ◌+◌, ◌≤◌, ◌<◌, ◌≡◌, refl, ◌⊎◌, true, false, none, some, List, [], ◌∷◌, ◌++◌, arith, length,
  all, contains, set_insert, lookup, adjust, Text, text, text_eq, text_Eq,
}
use lqxp.Common.Order.{all_above, is_sorted}
use lqxp.Common.Chars.{take_chars}
use lqxp.Common.Json.{
  Json, null, number, string, object, array, field, end_fields, item, end_items, get_field, as_u64,
  as_object, as_array, str_field, trimmed_field, nonempty,
}
use lqxp.Chat.Record.{
  ChatMessageRecord, MessageReaction, EncryptedPayload, PollTally, is_message_author,
}
use lqxp.Chat.Reactions.{toggle_reaction}
use lqxp.Chat.Reactions.Cases.{are_well_formed, is_well_formed}
use lqxp.Chat.Reactions.Toggle.{TogglesTo, toggle_reaction_lem}
use lqxp.Chat.Encrypted.{parse_encrypted_payload}
use lqxp.Chat.Encrypted.Bounds.{IsWithinLimits, parse_encrypted_payload_limits}
use lqxp.Chat.Messages.{Libraries}
use lqxp.Chat.Send.{take_turn, too_soon, min_between_message_interval}
use lqxp.Chat.Send.Spacing.{take_turn_spacing}
use lqxp.Chat.Amend.{may_delete, moderates}
use lqxp.Chat.Amend.Authors.{rank, may_delete-rank}
use lqxp.Chat.Edit.Author.{OnlyOwnEdited, edit_found_author}
use lqxp.Chat.Poll.{cast_vote, choices_of, resize, increment, count_choices, needed, empty_tally}
use lqxp.Chat.Poll.Votes.{count_at, chosen, one_if, cast_vote_lem}
use lqxp.Chat.Calls.{ChatCall, send, serve, before, served}
use lqxp.Chat.Keeps.{ChatOk, rooms_ok}
use lqxp.Chat.Invariant.{reachable_chat}
use lqxp.Room.Record.{administrator, role_in_room}
use lqxp.Room.Decide.{allow}
use lqxp.Room.Server.{Server}
use lqxp.Account.Files.{Disk}
use lqxp.Examples.Account.{ascii}
use lqxp.Examples.Room.{lobby, session_of, server, good_env}

abbrev thumbs : List MessageReaction
thumbs = record { emoji = text "+1"; users = text "ann" ∷ []; count = 1 } ∷ []

thumbs_ok : are_well_formed thumbs ≡ true
unfolding are_well_formed is_well_formed all is_sorted all_above
thumbs_ok = refl

toggle_reaction_lem_example :
    TogglesTo (text "+1") (text "bob") thumbs (toggle_reaction (text "+1") (text "bob") thumbs)
toggle_reaction_lem_example = toggle_reaction_lem (text "+1") (text "bob") thumbs thumbs_ok

abbrev pub libs : Libraries
libs = record { unicode = ascii; to_string = λ _. []; b64_decode = λ s. some s }

abbrev pub said : Text → Json
said s = string s

abbrev sealed_json : Json
sealed_json = object (
    field (text "v") (number 2) (
      field (text "alg") (said (text "x")) (
        field (text "iv") (said (text "y")) (
          field (text "salt") (said (text "z")) (
            field (text "n") (number 7) (
              field (text "senderDeviceId") (said (text "d")) (
                field (text "senderSigningKey") (object end_fields) (
                  field (text "signature") (said (text "s")) (
                    field (text "ciphertext") (said (text "c"))
                      (field (text "roomId") (said (text "r")) end_fields))))))))))

abbrev sealed : EncryptedPayload
sealed = record {
  v = 2;
  alg = text "x";
  iv = text "y";
  salt = text "z";
  n = some 7;
  sender_device_id = text "d";
  sender_signing_key = some (object end_fields);
  signature = text "s";
  ciphertext = text "c";
  room_id = some (text "r");
}

sealed_parsed : parse_encrypted_payload (λ s. s) (λ _. []) (some sealed_json) ≡ allow (some sealed)
unfolding parse_encrypted_payload text text_eq get_field as_u64 as_object str_field trimmed_field
    nonempty take_chars
sealed_parsed = refl

parse_encrypted_payload_limits_example : IsWithinLimits sealed (λ k. 0)
parse_encrypted_payload_limits_example =
    parse_encrypted_payload_limits (λ s. s) (λ _. []) (some sealed_json) sealed sealed_parsed

abbrev ballot : Json
ballot =
    object (field (text "choices") (array (item (number 1) (item (number 1) end_items))) end_fields)

abbrev one_vote : PollTally
one_vote = record { voters = text "h" ∷ []; counts = 0 ∷ 1 ∷ [] }

voted_once : cast_vote (text "h") (choices_of ballot) empty_tally ≡ some one_vote
unfolding cast_vote choices_of resize increment count_choices needed contains set_insert get_field
    as_u64 as_array text text_eq
voted_once = refl

cast_vote_lem_example :
    (contains {A = Text} [] (text "h") ≡ false)
    × (length one_vote.voters ≡ 0 + 1)
    × ((i : ℕ) → count_at i one_vote.counts ≡ count_at i [] + one_if (chosen (choices_of ballot) i))
    × ((i : ℕ) → count_at i one_vote.counts ≤ length one_vote.voters)
    × ((e : Json) → cast_vote (text "h") (choices_of e) one_vote ≡ none)
cast_vote_lem_example =
    cast_vote_lem (text "h") ballot empty_tally one_vote (λ i. omega arith) (omega arith) voted_once

abbrev disk : Disk
disk = record { listed = true; write_ok = true; uuid = text "u1"; upload_public_base = [] }

abbrev hello : Json
hello = object (
    field (text "gameId") (said (text "lobby123"))
      (field (text "text") (said (text "hello")) end_fields))

abbrev hash : Text → Text → Text
hash m u = m ++ u

nothing_said : ChatOk server
unfolding rooms_ok
nothing_said = refl

abbrev hello_sent : ChatCall
hello_sent = send disk good_env (text "m1") (text "dave") hello

reachable_chat_example : ChatOk (serve libs hash hello_sent server)
reachable_chat_example = reachable_chat libs hash (served server hello_sent before) nothing_said

abbrev noted : ℕ → Server
noted now = record server {
  players =
      (text "alice", session_of (text "alice"))
      ∷ (text "dave", record (session_of (text "dave")) { last_message_timestamp = some now })
      ∷ [];
}

turn_at :
    take_turn (text "dave") (text "lobby123") 1000 server
    ≡ (some (session_of (text "dave")), noted 1000)
unfolding take_turn too_soon lookup adjust contains text text_eq
turn_at = refl

turn_after :
    take_turn (text "dave") (text "lobby123") 1400 (noted 1000)
    ≡ (some (record (session_of (text "dave")) { last_message_timestamp = some 1000 }), noted 1400)
unfolding take_turn too_soon lookup adjust contains text text_eq
turn_after = refl

take_turn_spacing_example : 1000 + min_between_message_interval ≤ 1400
take_turn_spacing_example =
    take_turn_spacing (text "dave") (text "lobby123") (text "lobby123") 1000 1400 server
      (noted 1000) (noted 1400) (session_of (text "dave"))
      (record (session_of (text "dave")) { last_message_timestamp = some 1000 }) turn_at turn_after

abbrev from_dave : ChatMessageRecord
from_dave = record {
  message_id = text "m1";
  room_id = text "lobby123";
  user = text "dave";
  username = text "dave";
  user_id = text "dave";
  body = text "hi";
  timestamp = 1;
  profile = null;
  edited_at = none;
  system = false;
  reactions = [];
  reply_to_message_id = none;
  attachment = none;
  encrypted = none;
  preview = none;
  deleted = false;
  deleted_by = [];
  deleted_by_moderator = false;
}

not_alice : is_message_author (text "dave") (text "dave") (text "alice") (text "alice") ≡ false
unfolding is_message_author text text_eq
not_alice = refl

alice_may : (may_delete (some lobby) (session_of (text "alice")) from_dave).0 ≡ true
unfolding may_delete moderates role_in_room is_message_author text text_eq
alice_may = refl

may_delete-rank_example :
    ((role_in_room lobby (text "alice") ≡ administrator)
      ⊎ (rank (role_in_room lobby (text "dave")) < rank (role_in_room lobby (text "alice"))))
    × ((may_delete (some lobby) (session_of (text "alice")) from_dave).1 ≡ true)
may_delete-rank_example =
    may_delete-rank lobby (session_of (text "alice")) from_dave refl not_alice alice_may

edit_found_author_example :
    OnlyOwnEdited libs good_env
      (text "dave")
      (text "lobby123")
      (text "m1")
      none
      (session_of (text "dave"))
      hello
      (record server { room_messages = (text "lobby123", from_dave ∷ []) ∷ [] })
edit_found_author_example =
    edit_found_author libs good_env (text "dave") (text "lobby123") (text "m1") none
      (session_of (text "dave")) hello
      (record server { room_messages = (text "lobby123", from_dave ∷ []) ∷ [] })
