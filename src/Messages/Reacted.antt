-- ===== src/Messages/Reacted.antt =====
-- Adding and removing reactions keep what Kept says.
use roomler.Prelude.{
  ℕ, ◌≡◌, refl, sym, ap, subst, ◌∙◌, false, List, [], ◌∷◌, Text, modify, any, retain, arith,
  Bool-cases, inl, inr, ◌==◌,
}
use roomler.Messages.{ObjectId, Message, ReactionSummary}
use roomler.Messages.Rows.{update_reaction_summary}
use roomler.Messages.Reactions.{
  Reaction, Posts, is_of, is_not_of, add, remove, add_and_update_summary, remove_and_update_summary,
  get_summary, summarise,
}
use roomler.Messages.Summaries.{Exact, count_reactions, is_emoji_of, get_summary-Exact}
use roomler.Messages.Kept.{Kept, RowKept, count_rows-modify, modified_row}

abbrev set_summary : List ReactionSummary → ℕ → Message → Message
set_summary summary now m = record m { reaction_summary = summary; updated_at = now }

-- The reactions of every other message are counted as before.
abbrev Elsewhere : ObjectId → List Reaction → List Reaction → Type 0
Elsewhere message_id rs rs' =
    (id : ObjectId) (emoji : Text)
    → (message_id == id) ≡ false
    → count_reactions (is_emoji_of id emoji) rs' ≡ count_reactions (is_emoji_of id emoji) rs

summarise-Kept :
    (message_id now : ℕ) (s : Posts) (rs' : List Reaction)
    → Elsewhere message_id s.reactions rs'
    → Kept s
    → Kept (summarise message_id now (record s { reactions = rs' }))
unfolding update_reaction_summary
summarise-Kept message_id now s rs' elsewhere v id m' e =
    let f = set_summary (get_summary message_id rs') now in
    let (m, here, changed) = modified_row message_id f s.messages id m' e in
    let (read, replies, exact) = v id m here in
    let counts = count_rows-modify id message_id f s.messages (λ x. refl) in
    let after : Posts = record s { messages = modify message_id f s.messages; reactions = rs' } in
    elim (Bool-cases (message_id == id)) [
      | inl this ↦
          let this' : message_id ≡ id = ground (arith, this) in
          let new : f m ≡ m' = ground (arith, this, changed) in
          subst (λ x. RowKept after id x) new
            (
              read,
              replies ∙ sym counts,
              subst (λ x. Exact x rs' (get_summary message_id rs')) this'
                  (get_summary-Exact message_id rs'),
            )
      | inr other ↦
          let old : m ≡ m' = ground (arith, other, changed) in
          subst (λ x. RowKept after id x) old
            (
              read,
              replies ∙ sym counts,
              λ emoji. ((exact emoji).0 ∙ sym (elsewhere id emoji other), (exact emoji).1),
            )
    ]

pub add-Kept : (r : Reaction) (s : Posts) → Kept s → Kept (add_and_update_summary r s).1
unfolding add_and_update_summary add
add-Kept r s v = elim (Bool-cases (any (is_of r.message_id r.user_id r.emoji) s.reactions)) [
  | inl twice ↦ rw (twice, add_and_update_summary, add) v
  | inr new ↦
      rw (new, add_and_update_summary, add)
        (summarise-Kept r.message_id r.created_at s (r ∷ s.reactions)
          (λ id emoji other. ground (arith, other)) v)
]

retain-Elsewhere :
    (message_id user_id : ObjectId) (e : Text) (rs : List Reaction)
    → Elsewhere message_id rs (retain (is_not_of message_id user_id e) rs)
retain-Elsewhere message_id user_id e [] id emoji other = refl
retain-Elsewhere message_id user_id e (r ∷ rs) id emoji other =
    elim (Bool-cases (is_of message_id user_id e r)) [
      | inl gone ↦
          rw (gone)
            (ground (arith, gone, other, retain-Elsewhere message_id user_id e rs id emoji other))
      | inr stays ↦
          rw (stays) (ground (arith, retain-Elsewhere message_id user_id e rs id emoji other))
    ]

pub retain_none :
    (message_id user_id : ObjectId) (e : Text) (rs : List Reaction)
    → any (is_of message_id user_id e) rs ≡ false
    → retain (is_not_of message_id user_id e) rs ≡ rs
retain_none message_id user_id e [] h = refl
retain_none message_id user_id e (r ∷ rs) h = elim (Bool-cases (is_of message_id user_id e r)) [
  | inl this ↦ absurd (ground (arith, this, h))
  | inr other ↦
      rw (other) (ap (◌∷◌ r) (retain_none message_id user_id e rs (ground (arith, other, h))))
]

pub remove-Kept :
    (message_id user_id : ObjectId) (e : Text) (now : ℕ) (s : Posts)
    → Kept s
    → Kept (remove_and_update_summary message_id user_id e now s).1
unfolding remove_and_update_summary remove
remove-Kept message_id user_id e now s v =
    let rs' = retain (is_not_of message_id user_id e) s.reactions in
    elim (Bool-cases (any (is_of message_id user_id e) s.reactions)) [
      | inl removed ↦
          rw (removed, remove_and_update_summary, remove)
            (summarise-Kept message_id now s rs' (retain-Elsewhere message_id user_id e s.reactions)
              v)
      | inr nothing ↦
          let same : s.reactions ≡ rs' =
            sym (retain_none message_id user_id e s.reactions nothing) in
          rw (nothing, remove_and_update_summary, remove)
            (subst (λ (l : List Reaction). Kept (record s { reactions = l })) same v)
    ]
