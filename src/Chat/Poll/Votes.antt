-- ===== src/Chat/Poll/Votes.antt =====
-- What a vote does to the tally of a poll.
use lqxp.Common.{
  ℕ, zero, suc, ◌+◌, ◌^◌, ◌≤◌, ◌<◌, ◌≡◌, refl, sym, ap, ◌∙◌, Bool, true, false, ◌&&◌, none, some,
  List, [], ◌∷◌, arith, leb, nat_beq, if◌then◌else◌, nat_beq_iff, eq_law, length, get_elem?, any,
  contains, set_insert, unwrap_or, Text, text_Eq,
}
use native.Mathlib.Nat.{mod-eq_of_lt}
use lqxp.Chat.Record.{PollTally}
use lqxp.Chat.Poll.{
  choices_of, resize, increment, count_choices, needed, cast_vote, insert_choice, sort_unstable,
  dedup, dedup_after, listed,
}
use lqxp.Common.Json.{Json, get_field, as_array}

-- The count of an option, 0 where there is none.
abbrev pub count_at : ℕ → List ℕ → ℕ
count_at i counts = unwrap_or (get_elem? counts i) 0

abbrev pub total : List ℕ → ℕ
total [] = 0
total (c ∷ cs) = c + total cs

-- The choices strictly increase.
unfoldable pub increasing_from : ℕ → List ℕ → Bool
increasing_from n [] = true
increasing_from n (m ∷ ms) = leb n m && increasing_from (m + 1) ms

abbrev pub chosen : List ℕ → ℕ → Bool
chosen choices i = any (λ c. nat_beq c i) choices

count_at-resize : (i n : ℕ) (counts : List ℕ) → count_at i (resize n counts) ≡ count_at i counts
unfolding resize
count_at-resize i zero counts = refl
count_at-resize zero (suc n) [] = refl
count_at-resize (suc i) (suc n) [] = count_at-resize i n []
count_at-resize zero (suc n) (c ∷ counts) = refl
count_at-resize (suc i) (suc n) (c ∷ counts) = count_at-resize i n counts

length-resize : (n : ℕ) (counts : List ℕ) → n ≤ length (resize n counts)
unfolding resize
length-resize zero counts = omega arith
length-resize (suc n) [] = omega (arith, length-resize n [])
length-resize (suc n) (c ∷ counts) = omega (arith, length-resize n counts)

length-increment : (i : ℕ) (counts : List ℕ) → length (increment i counts) ≡ length counts
unfolding increment
length-increment i [] = refl
length-increment zero (c ∷ counts) = refl
length-increment (suc i) (c ∷ counts) = omega (arith, length-increment i counts)

count_at-increment :
    (i j : ℕ) (counts : List ℕ)
    → i < length counts
    → count_at i counts + 1 < 2 ^ 32
    → count_at j (increment i counts)
      ≡ (if nat_beq i j then count_at j counts + 1 else count_at j counts)
unfolding increment
count_at-increment i j [] h k = omega arith
count_at-increment zero zero (c ∷ counts) h k = ground (arith, mod-eq_of_lt k)
count_at-increment zero (suc j) (c ∷ counts) h k = ground arith
count_at-increment (suc i) zero (c ∷ counts) h k = ground arith
count_at-increment (suc i) (suc j) (c ∷ counts) h k = ground (arith, count_at-increment i j counts)

not_chosen : (n i : ℕ) (cs : List ℕ) → increasing_from n cs ≡ true → i < n → chosen cs i ≡ false
unfolding increasing_from any
not_chosen n i [] h k = refl
not_chosen n i (c ∷ cs) h k = ground (arith, not_chosen (c + 1) i cs)

abbrev pub one_if : Bool → ℕ
one_if b = if b then 1 else 0

-- Increasing choices are each counted once.
count_at-count_choices :
    (n i : ℕ) (cs counts : List ℕ)
    → increasing_from n cs ≡ true
    → ((j : ℕ) → chosen cs j ≡ true → (j < length counts) × (count_at j counts + 1 < 2 ^ 32))
    → count_at i (count_choices cs counts) ≡ count_at i counts + one_if (chosen cs i)
unfolding count_choices increasing_from any
count_at-count_choices n i [] counts h f = omega arith
count_at-count_choices n i (c ∷ cs) counts h f =
    let (short, small) = f c (ground arith) in
    let bumped = increment c counts in
    let later : increasing_from (c + 1) cs ≡ true = ground arith in
    let fresh = not_chosen (c + 1) c cs later (omega arith) in
    let rest = count_at-count_choices (c + 1) i cs bumped later (λ j q.
      let (j_short, j_small) = f j (ground arith) in
      (
        ground (arith, length-increment c counts),
        ground (arith, count_at-increment c j counts short small, nat_beq_iff c j),
      )) in
    ground (arith, rest, count_at-increment c i counts short small, nat_beq_iff c i)

chosen-needed : (i : ℕ) (cs : List ℕ) → chosen cs i ≡ true → i < needed cs
unfolding needed any
chosen-needed i [] h = cc
chosen-needed i (c ∷ cs) h = ground (arith, chosen-needed i cs)

-- Sorted numbers, with repetitions.
sorted_from : ℕ → List ℕ → Bool
sorted_from n [] = true
sorted_from n (m ∷ ms) = leb n m && sorted_from m ms

insert_choice-sorted_from :
    (k n : ℕ) (ms : List ℕ)
    → sorted_from k ms ≡ true
    → k ≤ n
    → sorted_from k (insert_choice n ms) ≡ true
unfolding sorted_from insert_choice
insert_choice-sorted_from k n [] h q = ground arith
insert_choice-sorted_from k n (m ∷ ms) h q = ground (arith, insert_choice-sorted_from m n ms)

sort_unstable-sorted_from : (ns : List ℕ) → sorted_from 0 (sort_unstable ns) ≡ true
unfolding sorted_from sort_unstable
sort_unstable-sorted_from [] = refl
sort_unstable-sorted_from (n ∷ ns) =
    insert_choice-sorted_from 0 n (sort_unstable ns) (sort_unstable-sorted_from ns) (omega arith)

increasing_from_weaken :
    (k n : ℕ) (ms : List ℕ) → increasing_from n ms ≡ true → k ≤ n → increasing_from k ms ≡ true
unfolding increasing_from
increasing_from_weaken k n [] h q = refl
increasing_from_weaken k n (m ∷ ms) h q = ground arith

dedup_after-increasing_from :
    (n : ℕ) (ms : List ℕ) → sorted_from n ms ≡ true → increasing_from n (dedup_after n ms) ≡ true
unfolding sorted_from dedup_after increasing_from
dedup_after-increasing_from n [] h = ground arith
dedup_after-increasing_from n (m ∷ ms) h = ground (
  arith,
  nat_beq_iff n m,
  dedup_after-increasing_from m ms,
  increasing_from_weaken (n + 1) m (dedup_after m ms),
  increasing_from_weaken n m (dedup_after m ms),
)

dedup-increasing_from :
    (ns : List ℕ) → sorted_from 0 ns ≡ true → increasing_from 0 (dedup ns) ≡ true
unfolding sorted_from dedup increasing_from
dedup-increasing_from [] h = refl
dedup-increasing_from (n ∷ ns) h =
    increasing_from_weaken 0 n (dedup_after n ns) (dedup_after-increasing_from n ns (ground arith))
      (omega arith)

pub choices_of-increasing_from : (d : Json) → increasing_from 0 (choices_of d) ≡ true
unfolding choices_of
choices_of-increasing_from d =
    dedup-increasing_from (sort_unstable (listed (as_array (get_field d "choices"))))
      (sort_unstable-sorted_from (listed (as_array (get_field d "choices"))))

some_injective : {A : Type 0} {a b : A} → some a ≡ some b → a ≡ b
some_injective h = cc

abbrev voted : Text → List ℕ → PollTally → PollTally
voted voter cs t = record {
  voters = voter ∷ t.voters;
  counts = count_choices cs (resize (needed cs) t.counts);
}

is_new :
    (voter : Text) (cs : List ℕ) (t u : PollTally)
    → cast_vote voter cs t ≡ some u
    → contains t.voters voter ≡ false
unfolding cast_vote
is_new voter cs t u h = ground arith

cast_new :
    (voter : Text) (cs : List ℕ) (t : PollTally)
    → contains t.voters voter ≡ false
    → cast_vote voter cs t ≡ some (voted voter cs t)
unfolding cast_vote set_insert
cast_new voter cs t n = rw n refl

count_voted :
    (voter : Text) (d : Json) (t : PollTally)
    → ((i : ℕ) → count_at i t.counts ≤ length t.voters)
    → length t.voters + 1 < 2 ^ 32
    → (i : ℕ)
    → count_at i (voted voter (choices_of d) t).counts
      ≡ count_at i t.counts + one_if (chosen (choices_of d) i)
count_voted voter d t bounded room i =
    let cs = choices_of d in
    let counts = resize (needed cs) t.counts in
    count_at-count_choices 0 i cs counts (choices_of-increasing_from d) (λ j q. (
      omega (arith, chosen-needed j cs q, length-resize (needed cs) t.counts),
      omega (arith, count_at-resize j (needed cs) t.counts, bounded j),
    ))
    ∙ ap (λ c. c + one_if (chosen cs i)) (count_at-resize i (needed cs) t.counts)

-- A vote that is accepted is the first by its voter, counts each choice once and no other option,
-- and bars the voter from another one, while the counts are at most the voters and fewer than
-- 2^32 - 1 have voted; the counts stay at most the voters.
pub cast_vote_lem :
    (voter : Text) (d : Json) (t u : PollTally)
    → ((i : ℕ) → count_at i t.counts ≤ length t.voters)
    → length t.voters + 1 < 2 ^ 32
    → cast_vote voter (choices_of d) t ≡ some u
    → (contains t.voters voter ≡ false)
      × (length u.voters ≡ length t.voters + 1)
      × ((i : ℕ) → count_at i u.counts ≡ count_at i t.counts + one_if (chosen (choices_of d) i))
      × ((i : ℕ) → count_at i u.counts ≤ length u.voters)
      × ((e : Json) → cast_vote voter (choices_of e) u ≡ none)
unfolding cast_vote contains
cast_vote_lem voter d t u bounded room h =
    let cs = choices_of d in
    let new = is_new voter cs t u h in
    let as_voted : u ≡ voted voter cs t = some_injective (sym h ∙ cast_new voter cs t new) in
    let counted = λ (i : ℕ). count_voted voter d t bounded room i in
    rw as_voted (
      new,
      omega arith,
      counted,
      λ i. ground (arith, counted i, bounded i),
      λ e. ground (arith, eq_law voter voter),
    )
