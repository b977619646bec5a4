-- ===== src/Sockets.antt =====
-- crates/api/src/ws/storage.rs: the connections of each user. A sender is known by its pointer, a
-- connection by a number.
use roomler.Prelude.{
  ℕ, ◌+◌, Bool, true, false, not, Option, none, some, List, [], ◌∷◌, ◌++◌, Map, lookup, insert,
  remove, contains_key, keys, retain, length, ◌==◌,
}
pub mod Senders
pub mod Exact
mod Tests

pub record WsStorage : Type 0 where
  pub connections : Map (List ℕ)
  pub connection_map : Map (ℕ × ℕ)

abbrev pub new : WsStorage
new = record { connections = []; connection_map = [] }

abbrev pub or_default : Option (List ℕ) → List ℕ
or_default none = []
or_default (some senders) = senders

unfoldable pub add : ℕ → ℕ → ℕ → WsStorage → WsStorage
add user_id connection_id sender s = record s {
  connections =
      insert user_id (or_default (lookup user_id s.connections) ++ sender ∷ []) s.connections;
  connection_map = insert connection_id (user_id, sender) s.connection_map;
}

-- The entry of a user that has no sender left is removed.
abbrev pub store : ℕ → List ℕ → Map (List ℕ) → Map (List ℕ)
store user_id [] m = remove user_id m
store user_id (t ∷ rest) m = insert user_id (t ∷ rest) m

abbrev pub is_not : ℕ → ℕ → Bool
is_not sender t = not (t == sender)

abbrev pub drop_sender : ℕ → ℕ → Option (List ℕ) → Map (List ℕ) → Map (List ℕ)
drop_sender user_id sender none m = m
drop_sender user_id sender (some senders) m = store user_id (retain (is_not sender) senders) m

unfoldable pub remove_sender : ℕ → ℕ → ℕ → WsStorage → WsStorage
remove_sender user_id connection_id sender s = record s {
  connections = drop_sender user_id sender (lookup user_id s.connections) s.connections;
  connection_map = remove connection_id s.connection_map;
}

unfoldable pub get_senders : ℕ → WsStorage → List ℕ
get_senders user_id s = or_default (lookup user_id s.connections)

unfoldable pub get_sender_by_connection : ℕ → WsStorage → Option ℕ
get_sender_by_connection connection_id s = elim (lookup connection_id s.connection_map) [
  | none ↦ none
  | some (user_id, sender) ↦ some sender
]

abbrev pub is_nonempty : List ℕ → Bool
is_nonempty [] = false
is_nonempty (t ∷ rest) = true

unfoldable pub is_connected : ℕ → WsStorage → Bool
is_connected user_id s = elim (lookup user_id s.connections) [
  | none ↦ false
  | some senders ↦ is_nonempty senders
]

unfoldable pub all_user_ids : WsStorage → List ℕ
all_user_ids s = keys s.connections

abbrev pub total : Map (List ℕ) → ℕ
total [] = 0
total ((user_id, senders) ∷ m) = length senders + total m

unfoldable pub connection_count : WsStorage → ℕ
connection_count s = total s.connections
