-- ===== src/Connectivity.antt =====
-- The verification of a peer's certificate, src/connectivity.rs, and the start of a connection in
-- `handle_incoming_data` of src/main.rs, which reads the id of the peer from what all connections share.
-- The id of a certificate (SHA-256) is a parameter.
pub mod Peers
mod Tests
use grizol.Prelude.{
  ℕ, ◌≡◌, refl, sym, ap, subst, ◌∙◌, Bool, true, false, ◌&&◌, Option, none, some, List, [], ◌∷◌,
  All, if◌then◌else◌, arith,
}
use grizol.Prelude.Keys.{nat_eq, Dict, lookup, insert, lookup-insert}
use grizol.DeviceId.{DeviceId}
use grizol.Config.{device_id_eq}
use grizol.Requests.{contains}

pub record PresharedAuth : Type 0 where
  pub trusted_peers : List DeviceId
  pub client_device_id : Option DeviceId

-- `Ok` is `true`. The id is kept before it is looked for.
unfoldable pub verify_client_cert :
    {Certificate : Type 0}
    → (Certificate → DeviceId)
    → Certificate
    → PresharedAuth
    → Bool × PresharedAuth
verify_client_cert id_of end_entity auth =
    let client_id = id_of end_entity in
    let auth' = record auth { client_device_id = some client_id } in
    (contains client_id auth'.trusted_peers, auth')

-- What the connections share, those whose handshake succeeded with the ids of their certificates, and those
-- that were started with the ids they work with.
pub record Listener : Type 0 where
  pub auth : PresharedAuth
  pub accepted : Dict ℕ DeviceId
  pub started : Dict ℕ DeviceId

-- The listener before the first connection.
abbrev pub listening : List DeviceId → Option DeviceId → Listener
listening trusted id = record {
  auth = record { trusted_peers = trusted; client_device_id = id };
  accepted = [];
  started = [];
}

module _ {Certificate : Type 0} (id_of : Certificate → DeviceId) where
  accepted_if : Bool → ℕ → DeviceId → Dict ℕ DeviceId → Dict ℕ DeviceId
  accepted_if true c id accepted = insert c id accepted
  accepted_if false c id accepted = accepted

  -- The handshake of connection `c`.
  unfoldable pub handshake : ℕ → Certificate → Listener → Listener
  unfolding accepted_if
  handshake c cert s =
      let (verified, auth) = verify_client_cert id_of cert s.auth in
      record {
        auth = auth;
        accepted = accepted_if verified c (id_of cert) s.accepted;
        started = s.started;
      }

  start_with : Option DeviceId → Option DeviceId → ℕ → Listener → Listener
  start_with (some own) (some id) c s = record s { started = insert c id s.started }
  start_with (some own) none c s = s
  start_with none o c s = s

  -- The connection reads the id. The guard of the lock before is dropped at once.
  unfoldable pub start : ℕ → Listener → Listener
  unfolding start_with
  start c s = start_with (lookup c s.accepted) s.auth.client_device_id c s

  -- One step of one of the connections.
  pub data Step : Listener → Listener → Type 0 where
    handshaken : {s : Listener} (c : ℕ) (cert : Certificate) → Step s (handshake c cert s)
    begun : {s : Listener} (c : ℕ) → Step s (start c s)

  pub data Reachable (first : Listener) : Listener → Type 0 where
    here : Reachable first first
    after : {s t : Listener} → Reachable first s → Step s t → Reachable first t
