-- ===== src/Sockets/Tests.antt =====
-- Sockets of two users, and the theorems at them.
use roomler.Prelude.{◌≡◌, refl, false, List, [], ◌∷◌, lookup, none, contains}
use roomler.Sockets.{WsStorage, get_senders}
use roomler.Sockets.Senders.{Event, opened, closed}

abbrev events : List Event
events = opened 5 50 500 ∷ opened 6 60 600 ∷ opened 5 51 501 ∷ closed 6 60 600 ∷ []

abbrev one_socket : WsStorage
one_socket = record { connections = (5, 500 ∷ []) ∷ []; connection_map = (50, (5, 500)) ∷ [] }

fresh : contains 501 (get_senders 5 one_socket) ≡ false
unfolding get_senders lookup
fresh = refl

unknown : lookup 51 one_socket.connection_map ≡ none
unfolding lookup
unknown = refl
