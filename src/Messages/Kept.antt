-- ===== src/Messages/Kept.antt =====
-- What the writes to messages and reactions keep: authors have read their messages, roots count their
-- replies, and summaries count the reactions.
use roomler.Prelude.{
  ℕ, ◌+◌, ◌≡◌, refl, sym, subst, ◌∙◌, Bool, true, none, some, List, [], ◌∷◌, Map, lookup, insert,
  modify, contains, arith, Bool-cases, Option-cases, inl, inr, lookup-modify, remove_absent, ◌==◌,
  if◌then◌else◌,
}
use roomler.Messages.{ObjectId, Message, or_no_replies}
use roomler.Messages.Rows.{Row, is_id, count_rows, update_rows, add_reader, is_to_read, mark_read}
use roomler.Messages.Reactions.{Posts}
use roomler.Messages.Reading.{contains-add_to_set}
use roomler.Messages.Summaries.{Exact}

abbrev pub replies_of : Message → ℕ
replies_of m = (or_no_replies m.thread_metadata).reply_count

-- Replies count also after they are deleted.
abbrev pub is_in_thread : ObjectId → Row → Bool
is_in_thread root (id, m) = is_id root m.thread_id

abbrev pub RowKept : Posts → ObjectId → Message → Type 0
RowKept s id m =
    (contains m.author_id m.readby ≡ true)
    × (replies_of m ≡ count_rows (is_in_thread id) s.messages)
    × Exact id s.reactions m.reaction_summary

abbrev pub Kept : Posts → Type 0
Kept s = (id : ObjectId) (m : Message) → lookup id s.messages ≡ some m → RowKept s id m

-- A change of a message that none of this is about.
abbrev pub Quiet : Message → Message → Type 0
Quiet m m' =
    (contains m.author_id m.readby ≡ true → contains m'.author_id m'.readby ≡ true)
    × (replies_of m' ≡ replies_of m)
    × (m'.thread_id ≡ m.thread_id)
    × (m'.reaction_summary ≡ m.reaction_summary)

pub count_rows-modify :
    (root k : ObjectId) (f : Message → Message) (ms : Map Message)
    → ((m : Message) → (f m).thread_id ≡ m.thread_id)
    → count_rows (is_in_thread root) (modify k f ms) ≡ count_rows (is_in_thread root) ms
unfolding modify
count_rows-modify root k f [] same = refl
count_rows-modify root k f ((id, m) ∷ ms) same = elim (Bool-cases (id == k)) [
  | inl here ↦ rw (here, same m) (ground (arith, count_rows-modify root k f ms same))
  | inr other ↦ rw (other) (ground (arith, count_rows-modify root k f ms same))
]

pub count_rows-insert :
    (p : Row → Bool) (id : ObjectId) (m : Message) (ms : Map Message)
    → lookup id ms ≡ none
    → count_rows p (insert id m ms) ≡ (if p (id, m) then 1 else 0) + count_rows p ms
unfolding insert
count_rows-insert p id m ms new = rw (remove_absent id ms new) refl

-- What stands behind a row of a collection that was modified at one key.
pub modified_row :
    (k : ObjectId) (f : Message → Message) (ms : Map Message) (id : ObjectId) (m' : Message)
    → lookup id (modify k f ms) ≡ some m'
    → (m : Message) × (lookup id ms ≡ some m) × ((if k == id then f m else m) ≡ m')
modified_row k f ms id m' e = elim (Option-cases (lookup id ms)) [
  | inl gone ↦ absurd (ground (arith, gone, e, lookup-modify k id f ms))
  | inr (m, here) ↦ (m, here, ground (arith, here, e, lookup-modify k id f ms))
]

pub Quiet-Kept :
    (k : ObjectId) (f : Message → Message) (s : Posts)
    → ((m : Message) → Quiet m (f m))
    → Kept s
    → Kept (record s { messages = modify k f s.messages })
Quiet-Kept k f s quiet v id m' e =
    let (m, here, changed) = modified_row k f s.messages id m' e in
    let (read, replies, exact) = v id m here in
    let counts = count_rows-modify id k f s.messages (λ x. (quiet x).2) in
    let (reads, same_replies, same_thread, same_summary) = quiet m in
    elim (Bool-cases (k == id)) [
      | inl same ↦
          let new : f m ≡ m' = ground (arith, same, changed) in
          subst (λ x. RowKept (record s { messages = modify k f s.messages }) id x) new
            (
              reads read,
              same_replies ∙ replies ∙ sym counts,
              subst (λ l. Exact id s.reactions l) (sym same_summary) exact,
            )
      | inr other ↦
          let old : m ≡ m' = ground (arith, other, changed) in
          subst (λ x. RowKept (record s { messages = modify k f s.messages }) id x) old
            (read, replies ∙ sym counts, exact)
    ]

lookup-update_rows :
    (p : Row → Bool) (f : Message → Message) (ms : Map Message) (id : ObjectId) (m' : Message)
    → lookup id (update_rows p f ms) ≡ some m'
    → (m : Message) × (lookup id ms ≡ some m) × ((if p (id, m) then f m else m) ≡ m')
unfolding lookup
lookup-update_rows p f [] id m' e = cc
lookup-update_rows p f ((k, m) ∷ ms) id m' e = elim (Bool-cases (k == id)) [
  | inl same ↦
      let same' : k ≡ id = ground (arith, same) in
      let new : (if p (k, m) then f m else m) ≡ m' = ground (arith, same, e) in
      (m, ground (arith, same), subst (λ j. (if p (j, m) then f m else m) ≡ m') same' new)
  | inr other ↦
      let (q, here, changed) = lookup-update_rows p f ms id m' (ground (arith, other, e)) in
      (q, ground (arith, other, here), changed)
]

count_rows-add_reader :
    (root user_id : ObjectId) (p : Row → Bool) (ms : Map Message)
    → count_rows (is_in_thread root) (update_rows p (add_reader user_id) ms)
      ≡ count_rows (is_in_thread root) ms
count_rows-add_reader root user_id p [] = refl
count_rows-add_reader root user_id p ((id, m) ∷ ms) = elim (Bool-cases (p (id, m))) [
  | inl reads ↦ rw (reads) (ground (arith, count_rows-add_reader root user_id p ms))
  | inr other ↦ rw (other) (ground (arith, count_rows-add_reader root user_id p ms))
]

pub mark_read-Kept :
    (room_id user_id : ObjectId) (ids : List ObjectId) (s : Posts)
    → Kept s
    → Kept (record s { messages = (mark_read room_id user_id ids s.messages).1 })
unfolding mark_read
mark_read-Kept room_id user_id ids s v id m' e =
    let p = is_to_read room_id user_id ids in
    let (m, here, changed) = lookup-update_rows p (add_reader user_id) s.messages id m' e in
    let (read, replies, exact) = v id m here in
    let counts = count_rows-add_reader id user_id p s.messages in
    let after : Posts = record s { messages = update_rows p (add_reader user_id) s.messages } in
    elim (Bool-cases (p (id, m))) [
      | inl marks ↦
          let new : add_reader user_id m ≡ m' = ground (arith, marks, changed) in
          subst (λ x. RowKept after id x) new
            (
              ground (arith, read, contains-add_to_set m.author_id user_id m.readby),
              replies ∙ sym counts,
              exact,
            )
      | inr leaves ↦
          let old : m ≡ m' = ground (arith, leaves, changed) in
          subst (λ x. RowKept after id x) old (read, replies ∙ sym counts, exact)
    ]
