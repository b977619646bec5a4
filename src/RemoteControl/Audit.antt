-- ===== src/RemoteControl/Audit.antt =====
-- crates/remote_control/src/audit.rs: the task that writes audit events to the database in batches.
-- What is pending in the channel when the task takes an event is an argument.
use roomler.Prelude.{
  ◌+◌, ◌≤◌, ◌<◌, ◌≡◌, refl, Bool, true, List, [], ◌∷◌, ◌++◌, length, leb, if◌then◌else◌, arith,
  length-append, append_assoc, ap, Bool-cases, inl, inr,
}
use roomler.RemoteControl.Models.{RemoteAuditEvent}

-- The task's buffer and the events that it has inserted, oldest first.
pub record Flusher : Type 0 where
  pub buf : List RemoteAuditEvent
  pub inserted : List RemoteAuditEvent

-- `while let Ok(more) = rx.try_recv()`, with what is left in the channel.
unfoldable pub drain :
    List RemoteAuditEvent → List RemoteAuditEvent → List RemoteAuditEvent × List RemoteAuditEvent
drain buf [] = (buf, [])
drain buf (more ∷ rest) =
    let later = drain (buf ++ more ∷ []) rest in
    if leb 64 (length (buf ++ more ∷ [])) then (buf ++ more ∷ [], rest) else later

-- The buffer is emptied whether or not the insertion succeeds.
unfoldable pub flush : Bool → Flusher → Flusher
flush inserts f = record {
  buf = [];
  inserted = if inserts then f.inserted ++ f.buf else f.inserted;
}

unfoldable pub receive :
    Bool → RemoteAuditEvent → List RemoteAuditEvent → Flusher → Flusher × List RemoteAuditEvent
unfolding drain flush
receive inserts ev pending f =
    let (buf, rest) = drain (f.buf ++ ev ∷ []) pending in
    let f' = record f { buf = buf } in (if leb 64 (length buf) then flush inserts f' else f', rest)

-- The timer, or the end of the channel.
unfoldable pub flush_rest : Bool → Flusher → Flusher
unfolding flush
flush_rest inserts f = elim f.buf [ [] ↦ f | e ∷ rest ↦ flush inserts f ]

drain_keeps :
    (buf pending : List RemoteAuditEvent)
    → let (b, rest) = drain buf pending in b ++ rest ≡ buf ++ pending
unfolding drain
drain_keeps buf [] = refl
drain_keeps buf (more ∷ rest) = elim (Bool-cases (leb 64 (length (buf ++ more ∷ [])))) [
  | inl full ↦ rw (full, drain) (append_assoc buf (more ∷ []) rest)
  | inr room ↦
      rw (room, drain)
        (rw (drain_keeps (buf ++ more ∷ []) rest) (append_assoc buf (more ∷ []) rest))
]

drain-le :
    (buf pending : List RemoteAuditEvent) → length buf ≤ 64 → length (drain buf pending).0 ≤ 65
unfolding drain
drain-le buf [] h = omega (arith, h)
drain-le buf (more ∷ rest) h =
    ground (arith, h, length-append buf (more ∷ []), drain-le (buf ++ more ∷ []) rest)

-- As long as insertions succeed, the audit task that takes an event with fewer than 64 buffered
-- loses, repeats and reorders no event of what is inserted, buffered and pending, buffers fewer
-- than 64 afterwards, and inserts at most 65 at once.
pub receive_keeps :
    (ev : RemoteAuditEvent) (pending : List RemoteAuditEvent) (f : Flusher)
    → length f.buf < 64
    → let (f', rest) = receive true ev pending f in
      (f'.inserted ++ (f'.buf ++ rest) ≡ f.inserted ++ (f.buf ++ (ev ∷ pending)))
      × (length f'.buf < 64)
      × (length f'.inserted ≤ length f.inserted + 65)
unfolding receive flush
receive_keeps ev pending f small =
    let start = f.buf ++ ev ∷ [] in
    let kept = drain_keeps start pending in
    let within = drain-le start pending (omega (arith, small, length-append f.buf (ev ∷ []))) in
    elim (Bool-cases (leb 64 (length (drain start pending).0))) [
      | inl full ↦ rw (full) (
        rw (append_assoc f.inserted (drain start pending).0 (drain start pending).1, kept)
            (ap (λ l. f.inserted ++ l) (append_assoc f.buf (ev ∷ []) pending)),
        omega arith,
        omega (arith, within, length-append f.inserted (drain start pending).0),
      )
      | inr room ↦ rw (room) (
        rw (kept) (ap (λ l. f.inserted ++ l) (append_assoc f.buf (ev ∷ []) pending)),
        ground (arith, room),
        omega arith,
      )
    ]
