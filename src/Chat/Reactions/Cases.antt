-- ===== src/Chat/Reactions/Cases.antt =====
-- Reactions in order, and the four cases of a toggle.
use lqxp.Common.{
  ◌≡◌, refl, Bool, true, false, ◌&&◌, not, Option, none, some, List, [], ◌∷◌, arith, nat_beq,
  length, is_empty, all, contains, set_remove, Text, text_Eq,
}
use lqxp.Common.Order.{insert_sorted, is_sorted}
use lqxp.Common.Order.Insert.{sort_last}
use lqxp.Chat.Record.{MessageReaction}
use lqxp.Chat.Reactions.{
  reaction_of, set_reaction, remove_reaction, toggled_users, toggle_at, toggle_in, toggle_reaction,
}
use lqxp.Chat.Reactions.Users.{self}
use lqxp.Chat.Reactions.Emoji.{emoji_of}

-- A reaction has users, each once and in order, and counts them.
unfoldable pub is_well_formed : MessageReaction → Bool
unfolding is_sorted
is_well_formed r =
    not (is_empty r.users) && is_sorted self r.users && nat_beq r.count (length r.users)

-- The emojis of a message are in order, each once.
unfoldable pub are_well_formed : List MessageReaction → Bool
unfolding is_sorted is_well_formed
are_well_formed rs = all is_well_formed rs && is_sorted emoji_of rs

unfoldable pub users_in : Option MessageReaction → List Text
users_in none = []
users_in (some r) = r.users

-- Whether a user has reacted with an emoji.
unfoldable pub has_reacted : Text → Text → List MessageReaction → Bool
unfolding users_in reaction_of
has_reacted emoji username rs = contains (users_in (reaction_of emoji rs)) username

abbrev pub fresh : Text → Text → MessageReaction
fresh e u = record { emoji = e; users = u ∷ []; count = 1 }

abbrev pub with_users : List Text → MessageReaction → MessageReaction
with_users us r = record r { users = us; count = length us }

pub all-insert_sorted :
    (r : MessageReaction) (rs : List MessageReaction)
    → all is_well_formed (insert_sorted emoji_of r rs) ≡ (is_well_formed r && all is_well_formed rs)
unfolding insert_sorted all
all-insert_sorted r [] = refl
all-insert_sorted r (x ∷ rs) = ground (arith, all-insert_sorted r rs)

pub all-set_reaction :
    (e : Text) (r : MessageReaction) (rs : List MessageReaction)
    → is_well_formed r ≡ true
    → all is_well_formed rs ≡ true
    → all is_well_formed (set_reaction e r rs) ≡ true
unfolding set_reaction all
all-set_reaction e r [] w h = refl
all-set_reaction e r (x ∷ rs) w h = ground (arith, all-set_reaction e r rs)

pub all-remove_reaction :
    (e : Text) (rs : List MessageReaction)
    → all is_well_formed rs ≡ true
    → all is_well_formed (remove_reaction e rs) ≡ true
unfolding remove_reaction all
all-remove_reaction e [] h = refl
all-remove_reaction e (x ∷ rs) h = ground (arith, all-remove_reaction e rs)

pub reaction_of-is_well_formed :
    (e : Text) (r : MessageReaction) (rs : List MessageReaction)
    → all is_well_formed rs ≡ true
    → reaction_of e rs ≡ some r
    → is_well_formed r ≡ true
unfolding reaction_of all
reaction_of-is_well_formed e r [] a h = cc
reaction_of-is_well_formed e r (x ∷ rs) a h = ground (arith, reaction_of-is_well_formed e r rs)

pub is_empty-length : (us : List Text) → nat_beq (length us) 0 ≡ is_empty us
is_empty-length [] = refl
is_empty-length (u ∷ us) = ground arith

pub empty_of_is_empty : {us : List Text} → is_empty us ≡ true → us ≡ []
empty_of_is_empty {us = []} h = refl
empty_of_is_empty {us = u ∷ us} h = cc

pub insert_sorted_nonempty :
    (u : Text) (us : List Text) → is_empty (insert_sorted self u us) ≡ false
unfolding insert_sorted
insert_sorted_nonempty u [] = refl
insert_sorted_nonempty u (v ∷ us) = ground arith

-- The four cases of a toggle.
pub toggle_first :
    (e u : Text) (rs : List MessageReaction)
    → is_sorted emoji_of rs ≡ true
    → reaction_of e rs ≡ none
    → toggle_reaction e u rs ≡ insert_sorted emoji_of (fresh e u) rs
unfolding toggle_reaction toggle_in
toggle_first e u rs s h = rw h (sort_last emoji_of rs (fresh e u) s)

pub toggle_join :
    (e u : Text) (r : MessageReaction) (rs : List MessageReaction)
    → reaction_of e rs ≡ some r
    → is_sorted self r.users ≡ true
    → contains r.users u ≡ false
    → toggle_reaction e u rs ≡ set_reaction e (with_users (insert_sorted self u r.users) r) rs
unfolding toggle_reaction toggle_in toggle_at toggled_users
toggle_join e u r rs h s n = rw h (
    rw n (
      rw (sort_last self r.users u s) (
        rw (is_empty-length (insert_sorted self u r.users))
          (rw (insert_sorted_nonempty u r.users) refl))))

pub toggle_leave :
    (e u : Text) (r : MessageReaction) (rs : List MessageReaction)
    → reaction_of e rs ≡ some r
    → contains r.users u ≡ true
    → is_empty (set_remove u r.users) ≡ false
    → toggle_reaction e u rs ≡ set_reaction e (with_users (set_remove u r.users) r) rs
unfolding toggle_reaction toggle_in toggle_at toggled_users
toggle_leave e u r rs h n k = rw h (rw n (rw (is_empty-length (set_remove u r.users)) (rw k refl)))

pub toggle_last :
    (e u : Text) (r : MessageReaction) (rs : List MessageReaction)
    → reaction_of e rs ≡ some r
    → contains r.users u ≡ true
    → is_empty (set_remove u r.users) ≡ true
    → toggle_reaction e u rs ≡ remove_reaction e rs
unfolding toggle_reaction toggle_in toggle_at toggled_users
toggle_last e u r rs h n k = rw h (rw n (rw (is_empty-length (set_remove u r.users)) (rw k refl)))
