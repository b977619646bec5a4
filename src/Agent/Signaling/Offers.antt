-- ===== src/Agent/Signaling/Offers.antt =====
-- What a session's request settles for its offer.
use roomler.Prelude.{
  lookup-insert, insert, remove, ◌≡◌, Bool, false, Option, some, lookup, remove, ◌==◌,
  lookup-insert, Text,
}
use roomler.RemoteControl.Models.{ObjectId}
use roomler.RemoteControl.Signaling.{ServerMsg}
use roomler.Agent.Signaling.{insert, Conn}
use roomler.Agent.Signaling.Loop.{Event, received}

-- The message sets, uses or drops what was settled for the session.
abbrev pub concerns : ObjectId → ServerMsg → Bool
concerns sid (ServerMsg.request s user name permissions timeout browser preferred) = s == sid
concerns sid (ServerMsg.sdp_offer s sdp ice) = s == sid
concerns sid (ServerMsg.terminate s reason) = s == sid
concerns sid msg = false

abbrev pub IsAside : ObjectId → Event → Type 0
IsAside sid (received msg a) = concerns sid msg ≡ false
IsAside sid e = Unit

-- What is pending for a session.
abbrev pub Pends : ObjectId → Text → Option Text → Conn → Type 0
Pends sid codec transport c =
    (lookup sid c.pending_codecs ≡ some codec) × (lookup sid c.pending_transports ≡ some transport)
