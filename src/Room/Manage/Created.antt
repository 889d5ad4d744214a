-- ===== src/Room/Manage/Created.antt =====
-- The room that `create_room` of websocket/protocol.rs makes.
use lqxp.Common.{
  ◌≡◌, refl, ap, ◌∙◌, ◌⊎◌, inl, inr, false, Option, none, some, [], ◌∷◌, arith, Option-cases, ◌==◌,
  lookup, insert, contains_key, lookup-insert, lookup_self, Text, text_Eq,
}
use Prim.Native.String.{String}
use lqxp.Common.Json.{Json}
use lqxp.Chat.Messages.{Libraries}
use lqxp.Account.Files.{Disk}
use lqxp.Room.Record.{StoredFile, RoomRecord, ModeratorPermissions, administrator, community}
use lqxp.Room.Decide.{Verdict-cases, Verdict, allow, refuse}
use lqxp.Room.Acts.{rate_limited, or_respond, verdict, stop_if}
use lqxp.Room.Icon.{store_room_icon_from_payload}
use lqxp.Room.Server.{
  Server, Env, respond_error, respond_to_sender, room_record, set_room_record, session_identity,
}
use lqxp.Room.Manage.{
  create_room, create_limit, trimmed, requested_id, new_room, insert_room, add_icon,
}

-- A room of `owner`, who alone has a role in it.
abbrev OwnedBy : Text → RoomRecord → Type 0
OwnedBy owner room =
    (room.kind ≡ community)
    × (room.owner_id ≡ some owner)
    × (room.roles ≡ (owner, administrator) ∷ [])

module _ (libs : Libraries) (disk : Disk) (env : Env)
    (mod_permissions : Option Json → Option ModeratorPermissions) where
  icon_result : Text → Json → Server → Verdict (Option StoredFile)
  icon_result room_id d s =
      (store_room_icon_from_payload libs disk d (room_record env.read_ok room_id s) s.uploads).0

  with_icon :
      (room_id : Text) (room : RoomRecord) (d : Json) (s : Server) (icon : StoredFile)
      → icon_result room_id d s ≡ allow (some icon)
      → ((add_icon libs disk env mod_permissions room_id room d s).1.rooms ≡ s.rooms)
        ⊎ ((add_icon libs disk env mod_permissions room_id room d s).1.rooms
            ≡ insert room_id (record room { icon = some icon }) s.rooms)
  unfolding add_icon set_room_record icon_result
  with_icon room_id room d s icon h = ground arith

  without_icon :
      (room_id : Text) (room : RoomRecord) (d : Json) (s : Server)
      → ((e : String) × (icon_result room_id d s ≡ refuse e))
        ⊎ (icon_result room_id d s ≡ allow none)
      → (add_icon libs disk env mod_permissions room_id room d s).1.rooms ≡ s.rooms
  unfolding add_icon set_room_record icon_result
  without_icon room_id room d s (inl (e, h)) = ground arith
  without_icon room_id room d s (inr h) = ground arith

  -- Whatever becomes of the icon, the room at `room_id` stays its owner's, and no other changes.
  Made : Text → Text → Server → Server → Type 0
  Made room_id owner s t =
      (room : RoomRecord) × (lookup room_id t.rooms ≡ some room)
      × OwnedBy owner room
      × ((other : Text) → (room_id == other) ≡ false → lookup other t.rooms ≡ lookup other s.rooms)

  kept-Made :
      (room_id owner : Text) (room : RoomRecord) (s t : Server)
      → OwnedBy owner room
      → t.rooms ≡ insert room_id room s.rooms
      → Made room_id owner s t
  unfolding Made
  kept-Made room_id owner room s t o h = (
    room,
    ap (lookup room_id) h ∙ lookup_self room_id room s.rooms,
    o,
    λ other miss. ground (arith, ap (lookup other) h, lookup-insert room_id other room s.rooms),
  )

  over-Made :
      (room_id owner : Text) (room room' : RoomRecord) (s t : Server)
      → OwnedBy owner room'
      → t.rooms ≡ insert room_id room' (insert room_id room s.rooms)
      → Made room_id owner s t
  unfolding Made
  over-Made room_id owner room room' s t o h = (
    room',
    ap (lookup room_id) h ∙ lookup_self room_id room' _,
    o,
    λ other miss. ground (
      arith,
      ap (lookup other) h,
      miss,
      lookup-insert room_id other room' (insert room_id room s.rooms),
      lookup-insert room_id other room s.rooms,
    ),
  )

  added-Made :
      (room_id owner : Text) (room : RoomRecord) (d : Json) (s : Server)
      → OwnedBy owner room
      → Made room_id owner s
          (add_icon libs disk env mod_permissions room_id room d (set_room_record room_id room s)).1
  unfolding set_room_record
  added-Made room_id owner room d s o =
      let t = set_room_record room_id room s in
      elim (Verdict-cases (icon_result room_id d t)) [
        | inl (e, h) ↦
            kept-Made room_id owner room s _ o (without_icon room_id room d t (inl (e, h)))
        | inr (none, h) ↦ kept-Made room_id owner room s _ o (without_icon room_id room d t (inr h))
        | inr (some icon, h) ↦ elim (with_icon room_id room d t icon h) [
          | inl k ↦ kept-Made room_id owner room s _ o k
          | inr k ↦ over-Made room_id owner room _ s _ o k
        ]
      ]

  found :
      (session_id room_id : Text) (d : Json) (s : Server) (actor : Text × Text)
      → session_identity session_id s ≡ some actor
      → trimmed libs.unicode.trim (requested_id d) ≡ some room_id
      → ((create_room libs disk env mod_permissions session_id d s).1.rooms ≡ s.rooms)
        ⊎ ((lookup room_id s.rooms ≡ none)
            × ((create_room libs disk env mod_permissions session_id d s).1.rooms
                ≡ (add_icon libs disk env mod_permissions room_id
                    (new_room libs disk env mod_permissions room_id actor.0 d)
                    d
                    (set_room_record room_id
                      (new_room libs disk env mod_permissions room_id actor.0 d)
                      (rate_limited create_limit session_id env s).1)).1.rooms))
  unfolding create_room rate_limited or_respond verdict stop_if respond_error respond_to_sender
      session_identity insert_room set_room_record contains_key
  found session_id room_id d s actor h k = ground arith

  no_room :
      (session_id : Text) (d : Json) (s : Server)
      → (session_identity session_id s ≡ none) ⊎ (trimmed libs.unicode.trim (requested_id d) ≡ none)
      → (create_room libs disk env mod_permissions session_id d s).1.rooms ≡ s.rooms
  unfolding create_room rate_limited or_respond stop_if respond_error respond_to_sender
      session_identity
  no_room session_id d s (inl h) = ground arith
  no_room session_id d s (inr h) = ground arith

-- `s` with a new room of the session's user.
pub Created : Text → Server → Server → Type 0
Created session_id s t =
    (room_id : Text) × (actor : Text × Text) × (session_identity session_id s ≡ some actor)
    × (lookup room_id s.rooms ≡ none)
    × (room : RoomRecord) × (lookup room_id t.rooms ≡ some room)
    × OwnedBy actor.0 room
    × ((other : Text) → (room_id == other) ≡ false → lookup other t.rooms ≡ lookup other s.rooms)

-- `create_room` leaves the rooms as they are, or adds a community room at a key that had none, of
-- which the session's user is the owner and the only user with a role; every other room is as it was.
pub create_room_lem :
    (libs : Libraries) (disk : Disk) (env : Env)
    (mod_permissions : Option Json → Option ModeratorPermissions) (session_id : Text) (d : Json)
    (s : Server)
    → let t = (create_room libs disk env mod_permissions session_id d s).1 in
      (t.rooms ≡ s.rooms) ⊎ Created session_id s t
unfolding Created Made new_room rate_limited
create_room_lem libs disk env mod_permissions session_id d s =
    elim (Option-cases (session_identity session_id s)) [
      | inl h ↦ inl (no_room libs disk env mod_permissions session_id d s (inl h))
      | inr (actor, h) ↦ elim (Option-cases (trimmed libs.unicode.trim (requested_id d))) [
        | inl k ↦ inl (no_room libs disk env mod_permissions session_id d s (inr k))
        | inr (room_id, k) ↦
            elim (found libs disk env mod_permissions session_id room_id d s actor h k) [
              | inl e ↦ inl e
              | inr (absent, e) ↦
                  let room = new_room libs disk env mod_permissions room_id actor.0 d in
                  let made =
                    added-Made libs disk env mod_permissions room_id actor.0 room d
                      (rate_limited create_limit session_id env s).1 (refl, refl, refl) in
                  inr (
                    room_id,
                    actor,
                    h,
                    absent,
                    made.0,
                    ap (lookup room_id) e ∙ made.1,
                    made.2,
                    λ other miss. ap (lookup other) e ∙ made.3 other miss,
                  )
            ]
      ]
    ]
