-- ===== src/Messages/Posted.antt =====
-- New messages and reactions keep what Kept says.
use roomler.Prelude.{
  ℕ, ◌+◌, ◌≡◌, refl, sym, ap, subst, ◌∙◌, Bool, true, false, none, some, List, [], Map, Text,
  lookup, insert, modify, contains, arith, Bool-cases, Option-cases, inl, inr, ==-refl,
  lookup-insert, ◌==◌, if◌then◌else◌,
}
use roomler.Messages.{
  ObjectId, Message, CreateMessage, MessageAttachment, new_message, add_reply, start_thread,
  update_thread_metadata, count_in_parent, create_with_attachments,
}
use roomler.Messages.Rows.{is_id, count_rows}
use roomler.Messages.Reactions.{Posts}
use roomler.Messages.Summaries.{Exact, count_reactions, is_emoji_of}
use roomler.Messages.Kept.{
  Kept, RowKept, replies_of, is_in_thread, count_rows-modify, count_rows-insert, modified_row,
}

-- An identifier that nothing uses: no message, reply or reaction, and no request for a reply.
abbrev pub Fresh : ObjectId → CreateMessage → Posts → Type 0
Fresh id body s =
    (lookup id s.messages ≡ none)
    × (count_rows (is_in_thread id) s.messages ≡ 0)
    × ((emoji : Text) → count_reactions (is_emoji_of id emoji) s.reactions ≡ 0)
    × (is_id id body.thread_id ≡ false)

-- A row of the collection as it is after an insertion, before its parent counts it: only the parent of the
-- new message is one reply behind.
abbrev Behind : ObjectId → CreateMessage → Posts → Map Message → ObjectId → Message → Type 0
Behind id body s ms j m =
    (contains m.author_id m.readby ≡ true)
    × (replies_of m + (if is_id j body.thread_id then 1 else 0) ≡ count_rows (is_in_thread j) ms)
    × Exact j s.reactions m.reaction_summary

inserted-Behind :
    (id : ObjectId) (body : CreateMessage) (new : Message) (s : Posts)
    → Fresh id body s
    → new.thread_id ≡ body.thread_id
    → contains new.author_id new.readby ≡ true
    → replies_of new ≡ 0
    → new.reaction_summary ≡ []
    → Kept s
    → (j : ObjectId) (m : Message) → lookup j (insert id new s.messages) ≡ some m
    → Behind id body s (insert id new s.messages) j m
inserted-Behind id body new s (unused, childless, unloved, unasked) thread reads none_yet nothing v
      j m e =
    let counts = count_rows-insert (is_in_thread j) id new s.messages unused in
    let asked : is_in_thread j (id, new) ≡ is_id j body.thread_id = ap (λ t. is_id j t) thread in
    let counted : count_rows (is_in_thread j) (insert id new s.messages)
        ≡ (if is_id j body.thread_id then 1 else 0) + count_rows (is_in_thread j) s.messages =
      counts
      ∙ ap (λ (b : Bool). (if b then 1 else 0) + count_rows (is_in_thread j) s.messages) asked in
    elim (Bool-cases (id == j)) [
      | inl same ↦
          let same' : id ≡ j = ground (arith, same) in
          let this : new ≡ m = ground (arith, same, e, lookup-insert id j new s.messages) in
          let empty : count_rows (is_in_thread j) s.messages ≡ 0 =
            subst (λ x. count_rows (is_in_thread x) s.messages ≡ 0) same' childless in
          let not_asked : is_id j body.thread_id ≡ false =
            subst (λ x. is_id x body.thread_id ≡ false) same' unasked in
          let unreacted : Exact j s.reactions [] = λ emoji. (
            sym (
                subst (λ x. count_reactions (is_emoji_of x emoji) s.reactions ≡ 0) same'
                  (unloved emoji)),
            omega arith,
          ) in
          subst (λ x. Behind id body s (insert id new s.messages) j x) this
            (
              reads,
              ground (arith, none_yet, not_asked, counted, empty),
              subst (λ l. Exact j s.reactions l) (sym nothing) unreacted,
            )
      | inr other ↦
          let there : lookup j s.messages ≡ some m =
            ground (arith, other, e, lookup-insert id j new s.messages) in
          let (read, replies, exact) = v j m there in (read, omega (arith, replies, counted), exact)
    ]

counted-Kept :
    (id : ObjectId) (body : CreateMessage) (author_id now : ℕ) (s : Posts) (ms : Map Message)
    → ((j : ObjectId) (m : Message) → lookup j ms ≡ some m → Behind id body s ms j m)
    → Kept (record s { messages = count_in_parent body.thread_id author_id now ms })
unfolding update_thread_metadata
counted-Kept id body author_id now s ms behind j m' e = elim (Option-cases body.thread_id) [
  | inl alone ↦
      let same : count_in_parent body.thread_id author_id now ms ≡ ms = rw (alone) refl in
      let (read, replies, exact) = behind j m' (subst (λ x. lookup j x ≡ some m') same e) in
      (read, rw (same) (ground (arith, replies, alone)), exact)
  | inr (parent, thread) ↦
      let ms1 = modify parent start_thread ms in
      let ms2 = modify parent (add_reply author_id now) ms1 in
      let same : count_in_parent body.thread_id author_id now ms ≡ ms2 = rw (thread) refl in
      let (m1, there, changed) =
        modified_row parent (add_reply author_id now) ms1 j m'
          (subst (λ x. lookup j x ≡ some m') same e) in
      let (m, here, started) = modified_row parent start_thread ms j m1 there in
      let (read, replies, exact) = behind j m here in
      let counts =
        count_rows-modify j parent (add_reply author_id now) ms1 (λ x. refl)
        ∙ count_rows-modify j parent start_thread ms (λ x. refl) in
      let after : Posts = record s { messages = ms2 } in
      let done : RowKept after j m' = elim (Bool-cases (parent == j)) [
        | inl this ↦
            let first : start_thread m ≡ m1 = ground (arith, this, started) in
            let second : add_reply author_id now m1 ≡ m' = ground (arith, this, changed) in
            let whole : add_reply author_id now (start_thread m) ≡ m' =
              ap (add_reply author_id now) first ∙ second in
            subst (λ x. RowKept after j x) whole
              (read, ground (arith, replies, thread, this, counts), exact)
        | inr other ↦
            let whole : m ≡ m' = ground (arith, other, started, changed) in
            subst (λ x. RowKept after j x) whole
              (read, ground (arith, replies, thread, other, counts), exact)
      ] in
      subst (λ x. RowKept (record s { messages = x }) j m') (sym same) done
]

pub create-Kept :
    (now id tenant_id room_id author_id : ℕ) (body : CreateMessage) (files : List MessageAttachment)
    (s : Posts)
    → Fresh id body s
    → Kept s
    → Kept (record s {
      messages = create_with_attachments now id tenant_id room_id author_id body files s.messages;
    })
unfolding create_with_attachments
create-Kept now id tenant_id room_id author_id body files s fresh v =
    let new = new_message now tenant_id room_id author_id body files in
    counted-Kept id body author_id now s (insert id new s.messages)
      (inserted-Behind id body new s fresh refl (ground (arith, ==-refl author_id)) refl refl v)
