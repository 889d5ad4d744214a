-- ===== src/Chat/Reactions/Toggle.antt =====
-- What a toggle does to the reactions of a message.
use lqxp.Common.{
  ◌≡◌, sym, ap, ◌∙◌, inl, inr, true, false, ◌&&◌, not, none, some, List, [], ◌∷◌, arith,
  if◌then◌else◌, Bool-cases, Option-cases, ◌==◌, eq_law, length, is_empty, filter, contains,
  set_remove, Text, text_Eq,
}
use lqxp.Common.Order.{insert_sorted, is_sorted}
use lqxp.Common.Order.Insert.{insert_sorted-is_sorted}
use lqxp.Chat.Record.{MessageReaction}
use lqxp.Chat.Reactions.{reaction_of, set_reaction, remove_reaction, toggle_reaction}
use lqxp.Chat.Reactions.Users.{
  self, contains-any, set_remove-insert_sorted, set_remove-is_sorted, contains-insert_sorted,
  contains-set_remove, insert_sorted-set_remove,
}
use lqxp.Chat.Reactions.Emoji.{
  emoji_of, reaction_of_absent, reaction_of_present, reaction_of-insert_sorted,
  reaction_of-set_reaction, reaction_of-remove_reaction, remove_reaction-insert_sorted,
  remove_reaction-is_sorted, insert_sorted-remove_reaction, set_reaction_same, set_reaction_twice,
  set_reaction-is_sorted,
}
use lqxp.Chat.Reactions.Cases.{
  is_well_formed, are_well_formed, users_in, has_reacted, fresh, with_users, all-insert_sorted,
  all-set_reaction, all-remove_reaction, reaction_of-is_well_formed, empty_of_is_empty,
  insert_sorted_nonempty, toggle_first, toggle_join, toggle_leave, toggle_last,
}

-- What a toggle by a user of an emoji does to well-formed reactions.
abbrev pub TogglesTo : Text → Text → List MessageReaction → List MessageReaction → Type 0
TogglesTo e u rs new =
    (are_well_formed new ≡ true)
    × (toggle_reaction e u new ≡ rs)
    × ((d v : Text)
        → has_reacted d v new
          ≡ (if (e == d) && (u == v) then not (has_reacted d v rs) else has_reacted d v rs))

first_lem :
    (e u : Text) (rs : List MessageReaction)
    → are_well_formed rs ≡ true
    → reaction_of e rs ≡ none
    → TogglesTo e u rs (insert_sorted emoji_of (fresh e u) rs)
unfolding are_well_formed is_well_formed is_sorted has_reacted users_in contains set_remove filter
first_lem e u rs g h =
    let absent = reaction_of_absent e rs h in
    let new = insert_sorted emoji_of (fresh e u) rs in
    let reads = λ (d : Text). reaction_of-insert_sorted d (fresh e u) rs absent in
    (
      ground (
        arith,
        all-insert_sorted (fresh e u) rs,
        insert_sorted-is_sorted emoji_of (fresh e u) rs,
      ),
      toggle_last e u (fresh e u) new (ground (arith, reads e, eq_law e e))
            (ground (arith, eq_law u u)) (ground (arith, eq_law u u))
          ∙ remove_reaction-insert_sorted (fresh e u) rs absent,
      λ d v. ground (arith, reads d, eq_law e d),
    )

-- Another list of users written at an emoji.
module _ (e : Text) (r : MessageReaction) (rs : List MessageReaction)
    (h : reaction_of e rs ≡ some r) where
  read_written :
      (us : List Text) (d : Text)
      → reaction_of d (set_reaction e (with_users us r) rs)
        ≡ (if e == d then some (with_users us r) else reaction_of d rs)
  read_written us d =
      let (q, present) = reaction_of_present e r rs h in
      reaction_of-set_reaction d e (with_users us r) rs q present

  written-are_well_formed :
      (us : List Text)
      → are_well_formed rs ≡ true
      → is_empty us ≡ false
      → is_sorted self us ≡ true
      → are_well_formed (set_reaction e (with_users us r) rs) ≡ true
  unfolding are_well_formed is_well_formed
  written-are_well_formed us g k s =
      let (q, present) = reaction_of_present e r rs h in
      ground (
        arith,
        all-set_reaction e (with_users us r) rs,
        set_reaction-is_sorted e (with_users us r) rs q,
      )

  same_record : is_well_formed r ≡ true → with_users r.users r ≡ r
  unfolding is_well_formed
  same_record w =
      let q : length r.users ≡ r.count = ground arith in ap (λ n. record r { count = n }) q

  written_back :
      (us ws : List Text)
      → are_well_formed rs ≡ true
      → ws ≡ r.users
      → set_reaction e (with_users ws (with_users us r)) (set_reaction e (with_users us r) rs) ≡ rs
  unfolding are_well_formed
  written_back us ws g q =
      let (e_of, present) = reaction_of_present e r rs h in
      let wf = reaction_of-is_well_formed e r rs (ground arith) h in
      rw q (
        set_reaction_twice e (with_users r.users r) (with_users us r) rs e_of
        ∙ ap (λ x. set_reaction e x rs) (same_record wf)
        ∙ set_reaction_same e r rs h)

  -- The users written are those there were but for one.
  flipped :
      (us : List Text) (u : Text)
      → ((v : Text)
          → contains us v ≡ (if u == v then not (contains r.users v) else contains r.users v))
      → (d v : Text)
      → has_reacted d v (set_reaction e (with_users us r) rs)
        ≡ (if (e == d) && (u == v) then not (has_reacted d v rs) else has_reacted d v rs)
  unfolding has_reacted users_in
  flipped us u f d v = ground (arith, read_written us d, eq_law e d, f v)

  join_lem :
      (u : Text)
      → are_well_formed rs ≡ true
      → contains r.users u ≡ false
      → TogglesTo e u rs (set_reaction e (with_users (insert_sorted self u r.users) r) rs)
  unfolding are_well_formed is_well_formed
  join_lem u g n =
      let us = insert_sorted self u r.users in
      let wf = reaction_of-is_well_formed e r rs (ground arith) h in
      let sorted : is_sorted self r.users ≡ true = ground arith in
      let back = set_remove-insert_sorted u r.users n in
      let reads : reaction_of e (set_reaction e (with_users us r) rs) ≡ some (with_users us r) =
        ground (arith, read_written us e, eq_law e e) in
      (
        written-are_well_formed us g (insert_sorted_nonempty u r.users) (
            insert_sorted-is_sorted self u r.users sorted (ground (arith, contains-any u r.users))),
        toggle_leave e u (with_users us r) (set_reaction e (with_users us r) rs) reads
              (ground (arith, contains-insert_sorted u u r.users, eq_law u u))
              (ground (arith, back))
            ∙ written_back us (set_remove u us) g back,
        flipped us u (λ v. ground (arith, contains-insert_sorted u v r.users, eq_law u v)),
      )

  leave_lem :
      (u : Text)
      → are_well_formed rs ≡ true
      → contains r.users u ≡ true
      → is_empty (set_remove u r.users) ≡ false
      → TogglesTo e u rs (set_reaction e (with_users (set_remove u r.users) r) rs)
  unfolding are_well_formed is_well_formed
  leave_lem u g n k =
      let us = set_remove u r.users in
      let wf = reaction_of-is_well_formed e r rs (ground arith) h in
      let sorted : is_sorted self r.users ≡ true = ground arith in
      let still_sorted = set_remove-is_sorted u r.users sorted in
      let reads : reaction_of e (set_reaction e (with_users us r) rs) ≡ some (with_users us r) =
        ground (arith, read_written us e, eq_law e e) in
      (
        written-are_well_formed us g k still_sorted,
        toggle_join e u (with_users us r) (set_reaction e (with_users us r) rs) reads still_sorted
              (ground (arith, contains-set_remove u u r.users, eq_law u u))
            ∙ written_back us (insert_sorted self u us) g
                (insert_sorted-set_remove u r.users sorted n),
        flipped us u (λ v. ground (arith, contains-set_remove u v r.users, eq_law u v)),
      )

  only_user :
      (u : Text)
      → is_well_formed r ≡ true
      → contains r.users u ≡ true
      → is_empty (set_remove u r.users) ≡ true
      → fresh e u ≡ r
  unfolding is_well_formed insert_sorted
  only_user u w n k =
      let (e_of, _) = reaction_of_present e r rs h in
      let back = insert_sorted-set_remove u r.users (ground arith) n in
      let one : set_remove u r.users ≡ [] = empty_of_is_empty k in
      let users : u ∷ [] ≡ r.users = ap (insert_sorted self u) (sym one) ∙ back in
      let counted : length r.users ≡ r.count = ground arith in
      ap (λ x. record { emoji = x; users = u ∷ []; count = 1 }) (sym e_of)
      ∙ ap (λ x. record { emoji = r.emoji; users = x; count = length x }) users
      ∙ ap (λ x. record { emoji = r.emoji; users = r.users; count = x }) counted

  last_lem :
      (u : Text)
      → are_well_formed rs ≡ true
      → contains r.users u ≡ true
      → is_empty (set_remove u r.users) ≡ true
      → TogglesTo e u rs (remove_reaction e rs)
  unfolding are_well_formed is_well_formed has_reacted users_in contains
  last_lem u g n k =
      let wf = reaction_of-is_well_formed e r rs (ground arith) h in
      let sorted : is_sorted emoji_of rs ≡ true = ground arith in
      let left = remove_reaction-is_sorted e rs sorted in
      (
        ground (arith, all-remove_reaction e rs, left),
        toggle_first e u (remove_reaction e rs) left
              (ground (arith, reaction_of-remove_reaction e e rs sorted, eq_law e e))
            ∙ ap (λ x. insert_sorted emoji_of x (remove_reaction e rs)) (only_user u wf n k)
            ∙ insert_sorted-remove_reaction e r rs sorted h,
        λ d v. ground (
          arith,
          reaction_of-remove_reaction d e rs sorted,
          eq_law e d,
          only_user u wf n k,
          eq_law u v,
        ),
      )

-- A toggle flips one user's reaction with one emoji and no other, leaves the reactions in order
-- with the users of each counted, and a second toggle restores them exactly, if they are in
-- order to begin with.
pub toggle_reaction_lem :
    (e u : Text) (rs : List MessageReaction)
    → are_well_formed rs ≡ true
    → TogglesTo e u rs (toggle_reaction e u rs)
unfolding are_well_formed is_well_formed
toggle_reaction_lem e u rs g =
    let sorted : is_sorted emoji_of rs ≡ true = ground arith in
    elim (Option-cases (reaction_of e rs)) [
      | inl h ↦ rw (toggle_first e u rs sorted h) (first_lem e u rs g h)
      | inr (r, h) ↦
          let wf = reaction_of-is_well_formed e r rs (ground arith) h in
          let users : is_sorted self r.users ≡ true = ground arith in
          elim (Bool-cases (contains r.users u)) [
            | inl n ↦ elim (Bool-cases (is_empty (set_remove u r.users))) [
              | inl k ↦ rw (toggle_last e u r rs h n k) (last_lem e r rs h u g n k)
              | inr k ↦ rw (toggle_leave e u r rs h n k) (leave_lem e r rs h u g n k)
            ]
            | inr n ↦ rw (toggle_join e u r rs h users n) (join_lem e r rs h u g n)
          ]
    ]
