-- ===== src/Chat/Reactions.antt =====
-- `toggle_reaction_in_message` of websocket/protocol.rs.
pub mod Users
pub mod Emoji
pub mod Cases
pub mod Toggle
use lqxp.Common.{
  ◌+◌, ◌-◌, ◌/◌, Option, none, some, List, [], ◌∷◌, ◌++◌, nat_beq, if◌then◌else◌, ◌==◌, length,
  contains, set_remove, count, Text, text_Eq,
}
use lqxp.Common.Order.{sort}
use lqxp.Chat.Record.{MessageReaction}

-- `iter().position(|reaction| reaction.emoji == emoji)`, and the reaction there.
unfoldable pub reaction_of : Text → List MessageReaction → Option MessageReaction
reaction_of emoji [] = none
reaction_of emoji (r ∷ rs) = if r.emoji == emoji then some r else reaction_of emoji rs

-- A write at that position, and the removal of the reaction there.
unfoldable pub set_reaction : Text → MessageReaction → List MessageReaction → List MessageReaction
set_reaction emoji new [] = []
set_reaction emoji new (r ∷ rs) =
    if r.emoji == emoji then new ∷ rs else r ∷ set_reaction emoji new rs

unfoldable pub remove_reaction : Text → List MessageReaction → List MessageReaction
remove_reaction emoji [] = []
remove_reaction emoji (r ∷ rs) = if r.emoji == emoji then rs else r ∷ remove_reaction emoji rs

toggled_users : Text → List Text → List Text
unfolding sort
toggled_users username users =
    if contains users username
    then set_remove username users
    else sort (λ u. u) (users ++ username ∷ [])

toggle_at : Text → Text → MessageReaction → List MessageReaction → List MessageReaction
unfolding toggled_users set_reaction remove_reaction
toggle_at emoji username r reactions =
    let users = toggled_users username r.users in
    if nat_beq (length users) 0
    then remove_reaction emoji reactions
    else set_reaction emoji (record r { users = users; count = length users }) reactions

toggle_in : Option MessageReaction → Text → Text → List MessageReaction → List MessageReaction
unfolding toggle_at sort
toggle_in none emoji username reactions =
    sort (λ (r : MessageReaction). r.emoji)
      (reactions ++ record { emoji = emoji; users = username ∷ []; count = 1 } ∷ [])
toggle_in (some r) emoji username reactions = toggle_at emoji username r reactions

-- On the reactions of the message.
unfoldable pub toggle_reaction : Text → Text → List MessageReaction → List MessageReaction
unfolding toggle_in reaction_of
toggle_reaction emoji username reactions =
    toggle_in (reaction_of emoji reactions) emoji username reactions
