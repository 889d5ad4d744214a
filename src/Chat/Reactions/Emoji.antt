-- ===== src/Chat/Reactions/Emoji.antt =====
-- The reactions of a message by their emoji: reading, writing and removing one.
use lqxp.Common.{
  ◌≡◌, refl, Bool, true, false, none, some, List, [], ◌∷◌, arith, if◌then◌else◌, ◌==◌, eq_law, any,
  Text, text_Eq,
}
use lqxp.Common.Order.{text_lt_asymm, insert_sorted, all_above, is_sorted}
use lqxp.Common.Order.Insert.{insert_sorted-front, all_above-absent, all_above-present}
use lqxp.Chat.Record.{MessageReaction}
use lqxp.Chat.Reactions.{reaction_of, set_reaction, remove_reaction}

abbrev pub emoji_of : MessageReaction → Text
emoji_of r = r.emoji

abbrev pub has_emoji : Text → List MessageReaction → Bool
has_emoji e rs = any (λ r. emoji_of r == e) rs

pub reaction_of_absent :
    (e : Text) (rs : List MessageReaction) → reaction_of e rs ≡ none → has_emoji e rs ≡ false
unfolding reaction_of any
reaction_of_absent e [] h = refl
reaction_of_absent e (r ∷ rs) h = ground (arith, reaction_of_absent e rs)

pub absent_none :
    (e : Text) (rs : List MessageReaction) → has_emoji e rs ≡ false → reaction_of e rs ≡ none
unfolding reaction_of any
absent_none e [] h = refl
absent_none e (r ∷ rs) h = ground (arith, absent_none e rs)

pub reaction_of_present :
    (e : Text) (r : MessageReaction) (rs : List MessageReaction)
    → reaction_of e rs ≡ some r
    → (r.emoji ≡ e) × (has_emoji e rs ≡ true)
unfolding reaction_of any
reaction_of_present e r [] h = cc
reaction_of_present e r (x ∷ rs) h = ground (arith, eq_law x.emoji e, reaction_of_present e r rs)

pub reaction_of-insert_sorted :
    (e : Text) (r : MessageReaction) (rs : List MessageReaction)
    → has_emoji r.emoji rs ≡ false
    → reaction_of e (insert_sorted emoji_of r rs)
      ≡ (if r.emoji == e then some r else reaction_of e rs)
unfolding reaction_of any insert_sorted
reaction_of-insert_sorted e r [] h = refl
reaction_of-insert_sorted e r (x ∷ rs) h = ground (
  arith,
  eq_law x.emoji e,
  eq_law r.emoji e,
  eq_law x.emoji r.emoji,
  reaction_of-insert_sorted e r rs,
)

pub reaction_of-set_reaction :
    (e : Text) (d : Text) (r : MessageReaction) (rs : List MessageReaction)
    → r.emoji ≡ d
    → has_emoji d rs ≡ true
    → reaction_of e (set_reaction d r rs) ≡ (if d == e then some r else reaction_of e rs)
unfolding reaction_of any set_reaction
reaction_of-set_reaction e d r [] q h = cc
reaction_of-set_reaction e d r (x ∷ rs) q h = ground (
  arith,
  eq_law x.emoji e,
  eq_law d e,
  eq_law r.emoji e,
  eq_law x.emoji d,
  reaction_of-set_reaction e d r rs,
)

pub reaction_of-remove_reaction :
    (e : Text) (d : Text) (rs : List MessageReaction)
    → is_sorted emoji_of rs ≡ true
    → reaction_of e (remove_reaction d rs) ≡ (if d == e then none else reaction_of e rs)
unfolding reaction_of remove_reaction is_sorted
reaction_of-remove_reaction e d [] s = ground arith
reaction_of-remove_reaction e d (x ∷ rs) s = ground (
  arith,
  eq_law x.emoji e,
  eq_law d e,
  eq_law x.emoji d,
  absent_none x.emoji rs,
  all_above-absent emoji_of x.emoji rs,
  reaction_of-remove_reaction e d rs,
)

pub remove_reaction-insert_sorted :
    (r : MessageReaction) (rs : List MessageReaction)
    → has_emoji r.emoji rs ≡ false
    → remove_reaction r.emoji (insert_sorted emoji_of r rs) ≡ rs
unfolding remove_reaction any insert_sorted
remove_reaction-insert_sorted r [] h = ground (arith, eq_law r.emoji r.emoji)
remove_reaction-insert_sorted r (x ∷ rs) h =
    ground (arith, eq_law r.emoji r.emoji, remove_reaction-insert_sorted r rs)

all_above-remove_reaction :
    (k e : Text) (rs : List MessageReaction)
    → all_above emoji_of k rs ≡ true
    → all_above emoji_of k (remove_reaction e rs) ≡ true
unfolding remove_reaction all_above
all_above-remove_reaction k e [] h = refl
all_above-remove_reaction k e (x ∷ rs) h = ground (arith, all_above-remove_reaction k e rs)

pub remove_reaction-is_sorted :
    (e : Text) (rs : List MessageReaction)
    → is_sorted emoji_of rs ≡ true
    → is_sorted emoji_of (remove_reaction e rs) ≡ true
unfolding remove_reaction is_sorted
remove_reaction-is_sorted e [] s = refl
remove_reaction-is_sorted e (x ∷ rs) s =
    ground (arith, all_above-remove_reaction x.emoji e rs, remove_reaction-is_sorted e rs)

-- What is removed is inserted where it was.
pub insert_sorted-remove_reaction :
    (e : Text) (r : MessageReaction) (rs : List MessageReaction)
    → is_sorted emoji_of rs ≡ true
    → reaction_of e rs ≡ some r
    → insert_sorted emoji_of r (remove_reaction e rs) ≡ rs
unfolding remove_reaction is_sorted reaction_of insert_sorted
insert_sorted-remove_reaction e r [] s h = cc
insert_sorted-remove_reaction e r (x ∷ rs) s h = ground (
  arith,
  eq_law x.emoji e,
  reaction_of_present e r rs,
  all_above-present emoji_of x.emoji e rs,
  text_lt_asymm x.emoji e,
  insert_sorted-front emoji_of x rs,
  insert_sorted-remove_reaction e r rs,
)

pub set_reaction_same :
    (e : Text) (r : MessageReaction) (rs : List MessageReaction)
    → reaction_of e rs ≡ some r
    → set_reaction e r rs ≡ rs
unfolding set_reaction reaction_of
set_reaction_same e r [] h = refl
set_reaction_same e r (x ∷ rs) h = ground (arith, set_reaction_same e r rs)

pub set_reaction_twice :
    (e : Text) (r q : MessageReaction) (rs : List MessageReaction)
    → q.emoji ≡ e
    → set_reaction e r (set_reaction e q rs) ≡ set_reaction e r rs
unfolding set_reaction
set_reaction_twice e r q [] h = refl
set_reaction_twice e r q (x ∷ rs) h = ground (arith, eq_law q.emoji e, set_reaction_twice e r q rs)

all_above-set_reaction :
    (k e : Text) (r : MessageReaction) (rs : List MessageReaction)
    → r.emoji ≡ e
    → all_above emoji_of k (set_reaction e r rs) ≡ all_above emoji_of k rs
unfolding set_reaction all_above
all_above-set_reaction k e r [] h = refl
all_above-set_reaction k e r (x ∷ rs) h =
    ground (arith, eq_law x.emoji e, all_above-set_reaction k e r rs)

pub set_reaction-is_sorted :
    (e : Text) (r : MessageReaction) (rs : List MessageReaction)
    → r.emoji ≡ e
    → is_sorted emoji_of (set_reaction e r rs) ≡ is_sorted emoji_of rs
unfolding set_reaction is_sorted
set_reaction-is_sorted e r [] h = refl
set_reaction-is_sorted e r (x ∷ rs) h =
    ground (
      arith,
      eq_law x.emoji e,
      all_above-set_reaction x.emoji e r rs,
      set_reaction-is_sorted e r rs,
    )
