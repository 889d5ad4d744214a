-- ===== src/Examples/Manage.antt =====
-- Runs of the operations that make, change and delete a room, and of what an image is.
use lqxp.Common.{◌≡◌, refl, ◌⊎◌, true, none, [], text, text_eq}
use lqxp.Common.Json.{Json, object, field, end_fields, get_field}
use lqxp.Room.Decide.{allow, refuse}
use lqxp.Room.Server.{Server}
use lqxp.Room.Icon.{store_room_icon_from_payload}
use lqxp.Room.Manage.{create_room, update_room_description, delete_room_op}
use lqxp.Room.Manage.Settings.{DescribedAnew, update_room_description_lem}
use lqxp.Room.Manage.Created.{Created, create_room_lem}
use lqxp.Room.Manage.Owner.{Untouched, Deleted, delete_room_op_lem}
use lqxp.Account.Files.{Disk}
use lqxp.Account.Images.Detect.{detect_profile_image}
use lqxp.Examples.Room.{server, good_env}
use lqxp.Examples.Chat.{libs, said}

abbrev disk : Disk
disk = record { listed = true; write_ok = true; uuid = text "0af3"; upload_public_base = [] }

abbrev about_lobby : Json
about_lobby = object (field (text "gameId") (said (text "lobby123")) end_fields)

icon_left_out : store_room_icon_from_payload libs disk about_lobby none [] ≡ (allow none, [])
unfolding store_room_icon_from_payload get_field text text_eq
icon_left_out = refl

unknown_codec : detect_profile_image [] [] ≡ refuse "Unsupported profile image codec"
unfolding detect_profile_image
unknown_codec = refl

abbrev after_deletion : Server
after_deletion = (delete_room_op (λ s. s) good_env (text "alice") about_lobby server).1

delete_room_op_lem_example :
    Untouched server after_deletion ⊎ Deleted (text "alice") server after_deletion
delete_room_op_lem_example = delete_room_op_lem (λ s. s) good_env (text "alice") about_lobby server

abbrev asked : Json
asked = object (field (text "roomId") (said (text "new_lobby")) end_fields)

abbrev after_creation : Server
after_creation = (create_room libs disk good_env (λ _. none) (text "alice") asked server).1

create_room_lem_example :
    (after_creation.rooms ≡ server.rooms) ⊎ Created (text "alice") server after_creation
create_room_lem_example = create_room_lem libs disk good_env (λ _. none) (text "alice") asked server

abbrev welcome : Json
welcome = object (
    field (text "gameId") (said (text "lobby123"))
      (field (text "description") (said (text "Welcome")) end_fields))

abbrev after_description : Server
after_description =
    (update_room_description libs disk good_env (λ _. none) (text "alice") welcome server).1

update_room_description_lem_example :
    (after_description.rooms ≡ server.rooms) ⊎ DescribedAnew (text "alice") server after_description
update_room_description_lem_example =
    update_room_description_lem libs disk good_env (λ _. none) (text "alice") welcome server
