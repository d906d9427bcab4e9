-- ===== src/Connectivity/Tests.antt =====
-- Two connections, of which the second one's certificate is not trusted.
use grizol.Prelude.{ℕ, ◌≡◌, refl, none, some, [], ◌∷◌}
use grizol.Prelude.Keys.{nat_eq, lookup}
use grizol.DeviceId.{DeviceId}
use grizol.Config.{device_id_eq}
use grizol.Requests.{contains}
use grizol.Connectivity.{
  Listener, listening, handshake, start, Reachable, here, after, handshaken, begun,
}
use grizol.Connectivity.Peers.{IsGuarded, reachable-IsGuarded, start-handshake}

abbrev id_of : ℕ → DeviceId
id_of n = record { id = n ∷ [] }

abbrev first : Listener
first = listening (id_of 1 ∷ []) none

reachable-IsGuarded_example : IsGuarded (id_of 1 ∷ []) (start id_of 7 (handshake id_of 7 1 first))
reachable-IsGuarded_example =
    reachable-IsGuarded id_of (id_of 1 ∷ []) none (start id_of 7 (handshake id_of 7 1 first))
      (after (after here (handshaken 7 1)) (begun 7))

start-handshake_example :
    Reachable id_of first (start id_of 7 (handshake id_of 8 2 (handshake id_of 7 1 first)))
    × (lookup 7 (start id_of 7 (handshake id_of 8 2 (handshake id_of 7 1 first))).started
        ≡ some (id_of 2))
unfolding contains
start-handshake_example = start-handshake id_of 7 8 1 2 first refl refl
