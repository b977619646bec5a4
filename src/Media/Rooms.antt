-- ===== src/Media/Rooms.antt =====
-- crates/services/src/media/room_manager.rs and worker_pool.rs: which connection takes part in which
-- room with which producers and consumers. mediasoup is what `Engine` answers during one call; its
-- objects are known by their identifiers, and dropping one closes it. A connection is a number.
use roomler.Prelude.{
  remove_all, keys, ℕ, zero, suc, ◌+◌, ◌%◌, Bool, true, false, not, ◌||◌, Option, none, some, List,
  [], ◌∷◌, ◌++◌, map, lookup, insert, remove, modify, contains_key, Map, keys_where, retain, length,
  ltb, ◌==◌, if◌then◌else◌, Text, is_some, any,
}
pub mod Closing
pub mod Placed
pub mod Joining
pub mod Listing
pub mod Events
pub mod Calls

abbrev pub MediaId : Type 0
MediaId = ℕ

pub data MediaKind : Type 0 where
  audio video : MediaKind

pub data MediaError : Type 0 where
  room_not_found participant_not_found invalid_transport_id transport_not_found : MediaError
  cannot_consume engine_failed : MediaError

pub data MediaResult (A : Type 0) : Type 0 where
  ok : A → MediaResult A
  err : MediaError → MediaResult A

pub record ProducerEntry : Type 0 where
  pub producer : MediaId
  pub kind : MediaKind
  pub source : Text

pub record ParticipantMedia : Type 0 where
  pub user_id : MediaId
  pub send_transport : MediaId
  pub recv_transport : MediaId
  pub producers : List ProducerEntry
  pub consumers : List MediaId

-- A tap is kept under its producer with the transport and the consumer that feed it.
pub record MediaRoom : Type 0 where
  pub router : MediaId
  pub participants : Map ParticipantMedia
  pub rtp_taps : Map (MediaId × MediaId)

pub record RoomManager : Type 0 where
  pub rooms : Map MediaRoom
  pub connection_rooms : Map MediaId
  pub workers : List MediaId
  pub next : ℕ

-- Each answer is none where mediasoup, or the conversion of its result, fails.
pub record Engine : Type 0 where
  pub create_router : Option MediaId → Option MediaId
  pub new_send : MediaId → Option MediaId
  pub new_recv : MediaId → Option MediaId
  pub connects : MediaId → Bool
  pub produces : MediaId → MediaKind → Option MediaId
  pub can_consume : MediaId → MediaId → Bool
  pub consumes : MediaId → MediaId → Option MediaId
  pub resumes : MediaId → Bool
  pub describes : MediaId → Bool
  pub direct_transport : MediaId → Option MediaId

abbrev pub nth {ℓ} : {A : Type ℓ} → ℕ → List A → Option A
nth n [] = none
nth zero (x ∷ xs) = some x
nth (suc n) (x ∷ xs) = nth n xs

-- `fetch_add` on a `usize` wraps around.
unfoldable pub get_worker : RoomManager → Option MediaId × RoomManager
get_worker s = (
  nth (s.next % length s.workers) s.workers,
  record s { next = (s.next + 1) % 18446744073709551616 },
)

abbrev pub or_err :
    {A B : Type 0}
    → MediaError
    → Option A
    → (A → MediaResult B × RoomManager)
    → RoomManager
    → MediaResult B × RoomManager
or_err e none f s = (err e, s)
or_err e (some a) f s = f a

-- `update` is applied to the participant's entry in its room.
abbrev pub update_participant :
    MediaId → MediaId → (ParticipantMedia → ParticipantMedia) → RoomManager → RoomManager
update_participant room_id connection_id update s = record s {
  rooms =
      modify room_id (λ r. record r { participants = modify connection_id update r.participants })
        s.rooms;
}

abbrev pub with_participant :
    {B : Type 0}
    → MediaId
    → MediaId
    → (MediaRoom → ParticipantMedia → MediaResult B × RoomManager)
    → RoomManager
    → MediaResult B × RoomManager
with_participant room_id connection_id f s =
    or_err room_not_found (lookup room_id s.rooms)
      (λ room.
        or_err participant_not_found (lookup connection_id room.participants) (λ p. f room p) s)
      s

module _ (engine : Engine) where
  unfoldable pub create_room : MediaId → RoomManager → MediaResult MediaId × RoomManager
  unfolding get_worker
  create_room room_id s = elim (lookup room_id s.rooms) [
    | some room ↦ (if engine.describes room.router then ok room.router else err engine_failed, s)
    | none ↦
        let (worker, s') = get_worker s in
        elim (engine.create_router worker) [
          | none ↦ (err engine_failed, s')
          | some router ↦ (
            if engine.describes router then ok router else err engine_failed,
            record s' {
              rooms =
                  insert room_id (record { router = router; participants = []; rtp_taps = [] })
                    s'.rooms;
            },
          )
        ]
  ]

  unfoldable pub create_transports :
      MediaId → MediaId → MediaId → RoomManager → MediaResult (MediaId × MediaId) × RoomManager
  create_transports room_id user_id connection_id s =
      or_err room_not_found (lookup room_id s.rooms)
        (λ room.
          or_err engine_failed (engine.new_send room.router)
            (λ send.
              or_err engine_failed (engine.new_recv room.router)
                (λ recv. (
                  ok (send, recv),
                  record s {
                    rooms =
                        modify room_id
                          (λ r. record r {
                            participants =
                                insert connection_id
                                  (record {
                                    user_id = user_id;
                                    send_transport = send;
                                    recv_transport = recv;
                                    producers = [];
                                    consumers = [];
                                  })
                                  r.participants;
                          })
                          s.rooms;
                    connection_rooms = insert connection_id room_id s.connection_rooms;
                  },
                ))
                s)
            s)
        s

  unfoldable pub connect_transport :
      MediaId → MediaId → Option MediaId → RoomManager → MediaResult (Unit {0}) × RoomManager
  connect_transport room_id connection_id transport_id s =
      with_participant room_id connection_id
        (λ room p.
          or_err invalid_transport_id transport_id
            (λ tid.
              if p.send_transport == tid || p.recv_transport == tid
              then if engine.connects tid then (ok tt, s) else (err engine_failed, s)
              else (err transport_not_found, s))
            s)
        s

  unfoldable pub produce :
      MediaId → MediaId → MediaKind → Text → RoomManager → MediaResult MediaId × RoomManager
  produce room_id connection_id kind source s =
      with_participant room_id connection_id
        (λ room p.
          or_err engine_failed (engine.produces p.send_transport kind)
            (λ producer. (
              ok producer,
              update_participant room_id connection_id
                  (λ q. record q {
                    producers =
                        q.producers
                        ++ record { producer = producer; kind = kind; source = source } ∷ [];
                  })
                  s,
            ))
            s)
        s

  unfoldable pub consume :
      MediaId → MediaId → MediaId → RoomManager → MediaResult MediaId × RoomManager
  consume room_id connection_id producer_id s =
      or_err room_not_found (lookup room_id s.rooms)
        (λ room.
          if engine.can_consume room.router producer_id
          then or_err participant_not_found (lookup connection_id room.participants)
              (λ p.
                or_err engine_failed (engine.consumes p.recv_transport producer_id)
                  (λ consumer.
                    if engine.resumes consumer
                    then if engine.describes consumer
                      then (
                        ok consumer,
                        update_participant room_id connection_id
                            (λ q. record q { consumers = q.consumers ++ consumer ∷ [] }) s,
                      )
                      else (err engine_failed, s)
                    else (err engine_failed, s))
                  s)
              s
          else (err cannot_consume, s))
        s

  -- The receiving half of the tap's channel is the caller's.
  unfoldable pub create_rtp_tap :
      MediaId → MediaId → RoomManager → MediaResult (Unit {0}) × RoomManager
  create_rtp_tap room_id producer_id s =
      or_err room_not_found (lookup room_id s.rooms)
        (λ room.
          or_err engine_failed (engine.direct_transport room.router)
            (λ direct.
              or_err engine_failed (engine.consumes direct producer_id)
                (λ consumer.
                  if engine.resumes consumer
                  then (
                    ok tt,
                    record s {
                      rooms =
                          modify room_id
                            (λ r. record r {
                              rtp_taps = insert producer_id (direct, consumer) r.rtp_taps;
                            })
                            s.rooms;
                    },
                  )
                  else (err engine_failed, s))
                s)
            s)
        s
