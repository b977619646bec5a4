-- ===== src/Messages/Summaries.antt =====
-- The summary of a message's reactions counts them.
use roomler.Prelude.{
  ℕ, ◌+◌, ◌≤◌, ◌≡◌, refl, sym, ap, Bool, false, ◌&&◌, List, [], ◌∷◌, Text, arith, Bool-cases, inl,
  inr, same_text, same_text-≡, ◌==◌, if◌then◌else◌,
}
use roomler.Dao.{descending, sort_rows, insert_row}
use roomler.Messages.{ObjectId, ReactionSummary}
use roomler.Messages.Reactions.{Reaction, add_one, group, count_of_row, get_summary}

-- How often an emoji stands in a summary, and how often it is said to have been used.
abbrev pub rows : Text → List ReactionSummary → ℕ
rows emoji [] = 0
rows emoji (s ∷ rest) = (if same_text s.emoji emoji then 1 else 0) + rows emoji rest

abbrev pub total : Text → List ReactionSummary → ℕ
total emoji [] = 0
total emoji (s ∷ rest) = (if same_text s.emoji emoji then s.count else 0) + total emoji rest

abbrev pub count_reactions : (Reaction → Bool) → List Reaction → ℕ
count_reactions p [] = 0
count_reactions p (r ∷ rest) = (if p r then 1 else 0) + count_reactions p rest

abbrev pub is_emoji_of : ObjectId → Text → Reaction → Bool
is_emoji_of message_id emoji r = r.message_id == message_id && same_text r.emoji emoji

-- A summary is exact: each emoji has one row at most, with the number of its reactions.
abbrev pub Exact : ObjectId → List Reaction → List ReactionSummary → Type 0
Exact message_id reactions summary =
    (emoji : Text)
    → (total emoji summary ≡ count_reactions (is_emoji_of message_id emoji) reactions)
      × (rows emoji summary ≤ 1)

total-add_one :
    (emoji e : Text) (l : List ReactionSummary)
    → total emoji (add_one e l) ≡ total emoji l + (if same_text e emoji then 1 else 0)
total-add_one emoji e [] = ground arith
total-add_one emoji e (s ∷ l) = elim (Bool-cases (same_text s.emoji e)) [
  | inl same ↦
      let same' : s.emoji ≡ e = same_text-≡ s.emoji e same in
      ground (arith, same, ap (λ x. same_text x emoji) same')
  | inr other ↦ ground (arith, other, total-add_one emoji e l)
]

rows-add_one :
    (emoji e : Text) (l : List ReactionSummary)
    → (rows emoji l ≤ 1 → rows emoji (add_one e l) ≤ 1)
      × (same_text e emoji ≡ false → rows emoji (add_one e l) ≡ rows emoji l)
rows-add_one emoji e [] = (λ h. ground arith, λ other. ground (arith, other))
rows-add_one emoji e (s ∷ l) = elim (Bool-cases (same_text s.emoji e)) [
  | inl same ↦ (λ h. ground (arith, same, h), λ other. ground (arith, same))
  | inr different ↦
      let (few, kept) = rows-add_one emoji e l in
      (
        λ h. elim (Bool-cases (same_text e emoji)) [
          | inl this ↦
              let this' : e ≡ emoji = same_text-≡ e emoji this in
              let apart : same_text s.emoji emoji ≡ false = rw (sym this') different in
              rw (different, apart) (ground (arith, h, few, apart))
          | inr another ↦ rw (different) (ground (arith, h, kept, another))
        ],
        λ other. rw (different) (ground (arith, kept, other)),
      )
]

total-insert_row :
    (emoji : Text) (s : ReactionSummary) (l : List ReactionSummary)
    → (total emoji (insert_row descending count_of_row s l) ≡ total emoji (s ∷ l))
      × (rows emoji (insert_row descending count_of_row s l) ≡ rows emoji (s ∷ l))
total-insert_row emoji s [] = (refl, refl)
total-insert_row emoji s (t ∷ l) = ground (arith, total-insert_row emoji s l)

total-sort_rows :
    (emoji : Text) (l : List ReactionSummary)
    → (total emoji (sort_rows descending count_of_row l) ≡ total emoji l)
      × (rows emoji (sort_rows descending count_of_row l) ≡ rows emoji l)
unfolding sort_rows
total-sort_rows emoji [] = (refl, refl)
total-sort_rows emoji (s ∷ l) =
    ground (
      arith,
      total-insert_row emoji s (sort_rows descending count_of_row l),
      total-sort_rows emoji l,
    )

group-Exact :
    (message_id : ObjectId) (rs : List Reaction) → Exact message_id rs (group message_id rs)
group-Exact message_id [] emoji = (refl, omega arith)
group-Exact message_id (r ∷ rs) emoji =
    let (exact, once) = group-Exact message_id rs emoji in
    elim (Bool-cases (r.message_id == message_id)) [
      | inl here ↦
          let (few, kept) = rows-add_one emoji r.emoji (group message_id rs) in
          rw (here)
            (ground (arith, exact, total-add_one emoji r.emoji (group message_id rs)), few once)
      | inr elsewhere ↦ rw (elsewhere) (ground (arith, exact), once)
    ]

pub get_summary-Exact :
    (message_id : ObjectId) (rs : List Reaction) → Exact message_id rs (get_summary message_id rs)
unfolding get_summary
get_summary-Exact message_id rs emoji =
    let (exact, once) = group-Exact message_id rs emoji in
    ground (arith, exact, once, total-sort_rows emoji (group message_id rs))
