-- ===== src/Media/Rooms/Calls.antt =====
-- What single calls leave behind.
use roomler.Prelude.{
  ◌==◌, ◌&&◌, not, is_some, contains-keys, ==_iff, keys, ◌&&◌, ◌≡◌, refl, Bool, true, Option, none,
  some, List, [], ◌∷◌, ◌++◌, Text, lookup, contains, keys_where, retain, modify, arith,
  Option-cases, Bool-cases, inl, inr, ==-refl, lookup-modify, lookup-remove_all,
  keys_where_complete, keys_where_sound, Distinct, ◌<◌, All, Map, if◌then◌else◌, ltb, length,
}
use roomler.Media.Rooms.{
  is_some, not, MediaId, RoomManager, MediaRoom, ParticipantMedia, ProducerEntry, Engine, MediaKind,
  produce, ok, update_participant,
}
use roomler.Media.Rooms.Closing.{
  get_other_connection_ids, close_producer, close_participant_by_user, is_user, is_not, without,
  get_connection_room,
}

contains-keys_where :
    (p : ParticipantMedia → Bool) (m : Map ParticipantMedia) (k : MediaId) (v : ParticipantMedia)
    → Distinct m
    → lookup k m ≡ some v
    → contains k (keys_where p m) ≡ p v
contains-keys_where p m k v d e = elim (Bool-cases (p v)) [
  | inl passes ↦ ground (arith, passes, keys_where_complete p m k v e passes)
  | inr fails ↦ elim (Bool-cases (contains k (keys_where p m))) [
    | inl listed ↦
        let (w, e', t) = keys_where_sound p m k d listed in ground (arith, e, e', t, fails)
    | inr unlisted ↦ ground (arith, fails, unlisted)
  ]
]

-- When a user leaves a room that keeps each connection once, exactly that user's participants
-- leave it and are listed under no room any more; each other participant stays as it was.
close_participant_by_user_lem :
    (room_id user_id c : MediaId) (s : RoomManager) (room : MediaRoom) (p : ParticipantMedia)
    → Distinct room.participants
    → lookup room_id s.rooms ≡ some room
    → lookup c room.participants ≡ some p
    → let s' = close_participant_by_user room_id user_id s in
      (after : MediaRoom) × (lookup room_id s'.rooms ≡ some after)
      × (lookup c after.participants ≡ (if is_user user_id p then none else some p))
      × (get_connection_room c s' ≡ (if is_user user_id p then none else get_connection_room c s))
unfolding close_participant_by_user get_connection_room
close_participant_by_user_lem room_id user_id c s room p d here present =
    let ks = keys_where (is_user user_id) room.participants in
    let listed = contains-keys_where (is_user user_id) room.participants c p d present in
    (
      without ks room,
      rw (here, close_participant_by_user)
          (rw (lookup-modify room_id room_id (without ks) s.rooms, here, ==-refl room_id) refl),
      ground (arith, listed, lookup-remove_all ks c room.participants, present),
      ground (arith, here, listed, lookup-remove_all ks c s.connection_rooms),
    )

-- The participant's media in the room.
abbrev pub participant : MediaId → MediaId → RoomManager → Option ParticipantMedia
participant room_id connection_id s = elim (lookup room_id s.rooms) [
  | none ↦ none
  | some room ↦ lookup connection_id room.participants
]

participant-update :
    (room_id connection_id : MediaId) (update : ParticipantMedia → ParticipantMedia)
    (s : RoomManager) (p : ParticipantMedia)
    → participant room_id connection_id s ≡ some p
    → participant room_id connection_id (update_participant room_id connection_id update s)
      ≡ some (update p)
participant-update room_id connection_id update s p e =
    elim (Option-cases (lookup room_id s.rooms)) [
      | inl gone ↦ absurd (ground (arith, gone, e))
      | inr (room, here) ↦ ground (
        arith,
        here,
        e,
        ==-refl room_id,
        ==-refl connection_id,
        lookup-modify room_id room_id
            (λ q. record q { participants = modify connection_id update q.participants }) s.rooms,
        lookup-modify connection_id connection_id update room.participants,
      )
    ]

-- No entry is of that producer.
abbrev pub IsUnused : MediaId → List ProducerEntry → Type 0
IsUnused id l = All (λ e. is_not id e ≡ true) l

retain-append :
    (id : MediaId) (kind : MediaKind) (source : Text) (l : List ProducerEntry)
    → IsUnused id l
    → (retain (is_not id) (l ++ record { producer = id; kind = kind; source = source } ∷ []) ≡ l)
      × (length l < length (l ++ record { producer = id; kind = kind; source = source } ∷ []))
retain-append id kind source [] h = ground (arith, ==-refl id)
retain-append id kind source (e ∷ l) h = ground (arith, h.0, retain-append id kind source l h.1)

produced_lem :
    (engine : Engine) (r c id : MediaId) (kind : MediaKind) (source : Text) (s : RoomManager)
    (p : ParticipantMedia)
    → participant r c s ≡ some p
    → engine.produces p.send_transport kind ≡ some id
    → produce engine r c kind source s ≡ (
      ok id,
      update_participant r c
          (λ q. record q {
            producers = q.producers ++ record { producer = id; kind = kind; source = source } ∷ [];
          })
          s,
    )
unfolding produce
produced_lem engine r c id kind source s p e made = elim (Option-cases (lookup r s.rooms)) [
  | inl gone ↦ absurd (ground (arith, gone, e))
  | inr (room, here) ↦
      let present : lookup c room.participants ≡ some p = ground (arith, here, e) in
      rw (here, present, made) refl
]

closed_lem :
    (r c id : MediaId) (s : RoomManager) (p : ParticipantMedia)
    → participant r c s ≡ some p
    → close_producer r c id s ≡ (
      ltb (length (retain (is_not id) p.producers)) (length p.producers),
      update_participant r c (λ q. record q { producers = retain (is_not id) q.producers }) s,
    )
unfolding close_producer
closed_lem r c id s p e = elim (Option-cases (lookup r s.rooms)) [
  | inl gone ↦ absurd (ground (arith, gone, e))
  | inr (room, here) ↦
      let present : lookup c room.participants ≡ some p = ground (arith, here, e) in
      rw (here, present, close_producer) refl
]

-- A producer that a participant makes, under an identifier that it has no producer of, is listed
-- with its kind and source; closing it is reported and leaves the participant as it was.
produce-close_producer :
    (engine : Engine) (r c id : MediaId) (kind : MediaKind) (source : Text) (s : RoomManager)
    (p : ParticipantMedia)
    → participant r c s ≡ some p
    → engine.produces p.send_transport kind ≡ some id
    → IsUnused id p.producers
    → let (made, between) = produce engine r c kind source s in
      let (closed, after) = close_producer r c id between in
      (made ≡ ok id)
      × (participant r c between
          ≡ some (record p {
            producers = p.producers ++ record { producer = id; kind = kind; source = source } ∷ [];
          }))
      × (closed ≡ true)
      × (participant r c after ≡ some p)
produce-close_producer engine r c id kind source s p e made unused =
    let add : ParticipantMedia → ParticipantMedia = λ q. record q {
      producers = q.producers ++ record { producer = id; kind = kind; source = source } ∷ [];
    } in
    let drop : ParticipantMedia → ParticipantMedia =
      λ q. record q { producers = retain (is_not id) q.producers } in
    let between = update_participant r c add s in
    let there = participant-update r c add s p e in
    let (back, fewer) = retain-append id kind source p.producers unused in
    rw (produced_lem engine r c id kind source s p e made) (
      refl,
      there,
      rw (closed_lem r c id between (add p) there, back) (ground (arith, fewer)),
      rw
          (
            closed_lem r c id between (add p) there,
            participant-update r c drop between (add p) there,
            back,
          )
          refl,
    )

contains-retain :
    (c k : MediaId) (l : List MediaId)
    → contains k (retain (λ j. not (j == c)) l) ≡ (contains k l && not (k == c))
contains-retain c k [] = refl
contains-retain c k (j ∷ l) = ground (arith, contains-retain c k l, ==_iff j k)

-- The other connections of a room are exactly those that take part in it, but for the given one.
contains-get_other_connection_ids :
    (room_id c k : MediaId) (s : RoomManager)
    → contains k (get_other_connection_ids room_id c s)
      ≡ (is_some (participant room_id k s) && not (k == c))
unfolding get_other_connection_ids
contains-get_other_connection_ids room_id c k s = elim (Option-cases (lookup room_id s.rooms)) [
  | inl gone ↦ ground (arith, gone)
  | inr (room, here) ↦
      ground (
        arith,
        here,
        contains-retain c k (keys room.participants),
        contains-keys k room.participants,
      )
]
