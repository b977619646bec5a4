-- ===== src/Media/Rooms/Joining.antt =====
-- What the calls that reach mediasoup keep.
use roomler.Prelude.{
  ◌==◌, ◌||◌, ◌++◌, if◌then◌else◌, refl, Bool, true, false, Option, none, some, [], ◌∷◌, Text,
  lookup, insert, arith, Option-cases, Bool-cases, inl, inr, lookup-insert,
}
use roomler.Media.Rooms.{
  MediaId, RoomManager, Engine, MediaKind, create_room, create_transports, connect_transport,
  produce, consume, create_rtp_tap, ok, err, transport_not_found, engine_failed, MediaResult,
  update_participant, get_worker,
}
use roomler.Media.Rooms.Placed.{IsPlaced, held-modify, update_participant-Placed, joined-Placed}

module _ (engine : Engine) (s : RoomManager) (v : IsPlaced s) where
  either_state :
      (known connects : Bool)
      → let ended : MediaResult (Unit {0}) × RoomManager =
          if known
          then if connects then (ok tt, s) else (err engine_failed, s)
          else (err transport_not_found, s) in
        IsPlaced ended.1
  either_state true true = v
  either_state true false = v
  either_state false connects = v

  consumed :
      (room_id connection_id id : MediaId) (resumes describes : Bool)
      → let ended : MediaResult MediaId × RoomManager =
          if resumes
          then if describes
            then (
              ok id,
              update_participant room_id connection_id
                  (λ q. record q { consumers = q.consumers ++ id ∷ [] })
                  s,
            )
            else (err engine_failed, s)
          else (err engine_failed, s) in
        IsPlaced ended.1
  consumed room_id connection_id id true true =
      update_participant-Placed s v room_id connection_id _
  consumed room_id connection_id id true false = v
  consumed room_id connection_id id false describes = v

  pub create_room-Placed : (room_id : MediaId) → IsPlaced (create_room engine room_id s).1
  unfolding create_room get_worker
  create_room-Placed room_id = elim (Option-cases (lookup room_id s.rooms)) [
    | inr (room, here) ↦ rw (here, create_room) v
    | inl gone ↦ elim (Option-cases (engine.create_router (get_worker s).0)) [
      | inl failed ↦ rw (gone, failed, create_room) v
      | inr (router, made) ↦
          rw (gone, made, create_room)
            (λ c r e. ground (
              arith,
              gone,
              e,
              v c r,
              lookup-insert room_id r (record { router = router; participants = []; rtp_taps = [] })
                  s.rooms,
            ))
    ]
  ]

  pub create_transports-Placed :
      (room_id user_id connection_id : MediaId)
      → IsPlaced (create_transports engine room_id user_id connection_id s).1
  unfolding create_transports
  create_transports-Placed room_id user_id connection_id =
      elim (Option-cases (lookup room_id s.rooms)) [
        | inl gone ↦ rw (gone) v
        | inr (room, here) ↦ elim (Option-cases (engine.new_send room.router)) [
          | inl failed ↦ rw (here, failed) v
          | inr (send, made) ↦ elim (Option-cases (engine.new_recv room.router)) [
            | inl failed ↦ rw (here, made, failed) v
            | inr (recv, both) ↦
                rw (here, made, both) (joined-Placed s v _ room_id connection_id room here)
          ]
        ]
      ]

  pub connect_transport-Placed :
      (room_id connection_id : MediaId) (transport_id : Option MediaId)
      → IsPlaced (connect_transport engine room_id connection_id transport_id s).1
  unfolding connect_transport
  connect_transport-Placed room_id connection_id none =
      elim (Option-cases (lookup room_id s.rooms)) [
        | inl gone ↦ rw (gone) v
        | inr (room, here) ↦ elim (Option-cases (lookup connection_id room.participants)) [
          | inl absent ↦ rw (here, absent) v
          | inr (p, present) ↦ rw (here, present) v
        ]
      ]
  connect_transport-Placed room_id connection_id (some tid) =
      elim (Option-cases (lookup room_id s.rooms)) [
        | inl gone ↦ rw (gone) v
        | inr (room, here) ↦ elim (Option-cases (lookup connection_id room.participants)) [
          | inl absent ↦ rw (here, absent) v
          | inr (p, present) ↦
              rw (here, present)
                (either_state (p.send_transport == tid || p.recv_transport == tid)
                  (engine.connects tid))
        ]
      ]

  pub produce-Placed :
      (room_id connection_id : MediaId) (kind : MediaKind) (source : Text)
      → IsPlaced (produce engine room_id connection_id kind source s).1
  unfolding produce
  produce-Placed room_id connection_id kind source = elim (Option-cases (lookup room_id s.rooms)) [
    | inl gone ↦ rw (gone) v
    | inr (room, here) ↦ elim (Option-cases (lookup connection_id room.participants)) [
      | inl absent ↦ rw (here, absent) v
      | inr (p, present) ↦ elim (Option-cases (engine.produces p.send_transport kind)) [
        | inl failed ↦ rw (here, present, failed) v
        | inr (id, made) ↦
            rw (here, present, made) (update_participant-Placed s v room_id connection_id _)
      ]
    ]
  ]

  pub consume-Placed :
      (room_id connection_id producer_id : MediaId)
      → IsPlaced (consume engine room_id connection_id producer_id s).1
  unfolding consume
  consume-Placed room_id connection_id producer_id = elim (Option-cases (lookup room_id s.rooms)) [
    | inl gone ↦ rw (gone) v
    | inr (room, here) ↦ elim (Bool-cases (engine.can_consume room.router producer_id)) [
      | inr refused ↦ rw (here, refused) v
      | inl allowed ↦ elim (Option-cases (lookup connection_id room.participants)) [
        | inl absent ↦ rw (here, allowed, absent) v
        | inr (p, present) ↦ elim (Option-cases (engine.consumes p.recv_transport producer_id)) [
          | inl failed ↦ rw (here, allowed, present, failed) v
          | inr (id, made) ↦
              rw (here, allowed, present, made)
                (consumed room_id connection_id id (engine.resumes id) (engine.describes id))
        ]
      ]
    ]
  ]

  pub create_rtp_tap-Placed :
      (room_id producer_id : MediaId) → IsPlaced (create_rtp_tap engine room_id producer_id s).1
  unfolding create_rtp_tap
  create_rtp_tap-Placed room_id producer_id = elim (Option-cases (lookup room_id s.rooms)) [
    | inl gone ↦ rw (gone) v
    | inr (room, here) ↦ elim (Option-cases (engine.direct_transport room.router)) [
      | inl failed ↦ rw (here, failed) v
      | inr (direct, made) ↦ elim (Option-cases (engine.consumes direct producer_id)) [
        | inl failed ↦ rw (here, made, failed) v
        | inr (id, fed) ↦ elim (Bool-cases (engine.resumes id)) [
          | inr stuck ↦ rw (here, made, fed, stuck) v
          | inl runs ↦
              rw (here, made, fed, runs)
                (λ c r e.
                  rw
                    (held-modify
                      (λ q. record q { rtp_taps = insert producer_id (direct, id) q.rtp_taps })
                      room_id r c s.rooms (λ q. refl))
                    (v c r e))
        ]
      ]
    ]
  ]
