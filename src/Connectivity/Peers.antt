-- ===== src/Connectivity/Peers.antt =====
-- With which ids the connections work, src/connectivity.rs and src/main.rs.
use grizol.Prelude.{
  ℕ, ◌≡◌, refl, sym, ap, ◌∙◌, Bool, true, false, ◌==◌, Option, none, some, List, if◌then◌else◌,
  arith,
}
use grizol.Prelude.Keys.{nat_eq, Dict, lookup, lookup-insert}
use grizol.DeviceId.{DeviceId}
use grizol.Config.{device_id_eq}
use grizol.Requests.{contains}
use grizol.Connectivity.{
  verify_client_cert, Listener, accepted_if, handshake, start_with, start, Step, handshaken, begun,
  listening, Reachable, here, after,
}

-- The ids of the certificates of all connections that succeeded are trusted, and these alone are started.
pub record IsGuarded (trusted : List DeviceId) (s : Listener) : Type 0 where
  pub same_peers : s.auth.trusted_peers ≡ trusted
  pub trust : (c : ℕ) (id : DeviceId) → lookup c s.accepted ≡ some id → contains id trusted ≡ true
  pub verified :
      (c : ℕ) (id : DeviceId)
      → lookup c s.started ≡ some id
      → (own : DeviceId) × (lookup c s.accepted ≡ some own)

started_insert :
    (b : Bool) (c d : ℕ) (own id id' : DeviceId) (s : Listener)
    → (c == d) ≡ b
    → lookup c s.accepted ≡ some own
    → (lookup d s.started ≡ some id' → (own : DeviceId) × (lookup d s.accepted ≡ some own))
    → (if b then some id else lookup d s.started) ≡ some id'
    → (own : DeviceId) × (lookup d s.accepted ≡ some own)
started_insert true c d own id id' s same found old e =
    (own, ap (λ n. lookup n s.accepted) (sym ((nat_eq.beq_iff c d).0 same)) ∙ found)
started_insert false c d own id id' s other found old e = old e

module _ {Certificate : Type 0} (id_of : Certificate → DeviceId) where
  accepted_if-trusted :
      (b : Bool) (c d : ℕ) (own id : DeviceId) (trusted : List DeviceId)
      (accepted : Dict ℕ DeviceId)
      → contains own trusted ≡ b
      → (lookup d accepted ≡ some id → contains id trusted ≡ true)
      → lookup d (accepted_if id_of b c own accepted) ≡ some id
      → contains id trusted ≡ true
  unfolding accepted_if
  accepted_if-trusted true c d own id trusted accepted h old e =
      ground (arith, lookup-insert c d own accepted, old, h, e)
  accepted_if-trusted false c d own id trusted accepted h old e = old e

  accepted_if-keeps :
      (b : Bool) (c d : ℕ) (own id : DeviceId) (accepted : Dict ℕ DeviceId)
      → lookup d accepted ≡ some id
      → (id' : DeviceId) × (lookup d (accepted_if id_of b c own accepted) ≡ some id')
  unfolding accepted_if
  accepted_if-keeps true c d own id accepted e =
      (if c == d then own else id, lookup-insert c d own accepted ∙ ground (arith, e))
  accepted_if-keeps false c d own id accepted e = (id, e)

  handshake-IsGuarded :
      (trusted : List DeviceId) (c : ℕ) (cert : Certificate) (s : Listener)
      → IsGuarded trusted s
      → IsGuarded trusted (handshake id_of c cert s)
  unfolding handshake verify_client_cert
  handshake-IsGuarded trusted c cert s guarded = record {
    same_peers = guarded.same_peers;
    trust = λ d id e.
        accepted_if-trusted (contains (id_of cert) s.auth.trusted_peers) c d (id_of cert) id trusted
          s.accepted (ap (contains (id_of cert)) (sym guarded.same_peers)) (guarded.trust d id) e;
    verified = λ d id e.
        let (own, e') = guarded.verified d id e in
        accepted_if-keeps (contains (id_of cert) s.auth.trusted_peers) c d (id_of cert) own
          s.accepted e';
  }

  start_with-IsGuarded :
      (trusted : List DeviceId) (c : ℕ) (s : Listener) (own id : Option DeviceId)
      → lookup c s.accepted ≡ own
      → IsGuarded trusted s
      → IsGuarded trusted (start_with id_of own id c s)
  unfolding start_with
  start_with-IsGuarded trusted c s none id found guarded = guarded
  start_with-IsGuarded trusted c s (some own) none found guarded = guarded
  start_with-IsGuarded trusted c s (some own) (some id) found guarded = record {
    same_peers = guarded.same_peers;
    trust = guarded.trust;
    verified = λ d id' e.
        started_insert (c == d) c d own id id' s refl found (guarded.verified d id')
          (sym (lookup-insert c d id s.started) ∙ e);
  }

  Step-IsGuarded :
      (trusted : List DeviceId) {s t : Listener}
      → Step id_of s t
      → IsGuarded trusted s
      → IsGuarded trusted t
  unfolding start
  Step-IsGuarded trusted {s = s} (handshaken c cert) guarded =
      handshake-IsGuarded trusted c cert s guarded
  Step-IsGuarded trusted {s = s} (begun c) guarded =
      start_with-IsGuarded trusted c s (lookup c s.accepted) s.auth.client_device_id refl guarded

  -- In every state that handshakes and starts of connections reach, in any order, from a listener
  -- with some trusted peers, these are the trusted peers still, the certificate of each connection
  -- whose handshake succeeded has the id of one of them, and only such connections were started.
  pub reachable-IsGuarded :
      (trusted : List DeviceId) (id : Option DeviceId) (s : Listener)
      → Reachable id_of (listening trusted id) s
      → IsGuarded trusted s
  reachable-IsGuarded trusted id s here = record {
    same_peers = refl;
    trust = λ c id e. ground (arith, e);
    verified = λ c id e. ground (arith, e);
  }
  reachable-IsGuarded trusted id s (after {s = r} run step) =
      Step-IsGuarded trusted step (reachable-IsGuarded trusted id r run)

  accepted_if-other :
      (b : Bool) (c d : ℕ) (id : DeviceId) (accepted : Dict ℕ DeviceId)
      → (d == c) ≡ false
      → lookup c (accepted_if id_of b d id accepted) ≡ lookup c accepted
  unfolding accepted_if
  accepted_if-other true c d id accepted e = lookup-insert d c id accepted ∙ ground (arith, e)
  accepted_if-other false c d id accepted e = refl

  accepted_if-own :
      (b : Bool) (c : ℕ) (id : DeviceId) (accepted : Dict ℕ DeviceId)
      → b ≡ true
      → lookup c (accepted_if id_of b c id accepted) ≡ some id
  unfolding accepted_if
  accepted_if-own true c id accepted e = lookup-insert c c id accepted ∙ ground arith
  accepted_if-own false c id accepted e = ground arith

  start_with-started :
      (o : Option DeviceId) (own id : DeviceId) (c : ℕ) (s : Listener)
      → o ≡ some own
      → lookup c (start_with id_of o (some id) c s).started ≡ some id
  unfolding start_with
  start_with-started (some x) own id c s e = lookup-insert c c id s.started ∙ ground arith
  start_with-started none own id c s e = ground arith

  -- If after the handshake of a connection with a trusted certificate, and before its start, another
  -- connection has its handshake with any certificate, trusted or not, which is a sequence of steps
  -- of the listener, then the first connection works with the id of the other one.
  pub start-handshake :
      (c d : ℕ) (own other : Certificate) (s : Listener)
      → (d == c) ≡ false
      → contains (id_of own) s.auth.trusted_peers ≡ true
      → Reachable id_of s (start id_of c (handshake id_of d other (handshake id_of c own s)))
        × (lookup c (start id_of c (handshake id_of d other (handshake id_of c own s))).started
            ≡ some (id_of other))
  unfolding start handshake verify_client_cert
  start-handshake c d own other s different trusted =
      let s₁ = handshake id_of c own s in
      let s₂ = handshake id_of d other s₁ in
      (
        after (after (after here (handshaken c own)) (handshaken d other)) (begun c),
        start_with-started (lookup c s₂.accepted) (id_of own) (id_of other) c s₂ (
            accepted_if-other (contains (id_of other) s.auth.trusted_peers) c d (id_of other)
              s₁.accepted different
            ∙ accepted_if-own (contains (id_of own) s.auth.trusted_peers) c (id_of own) s.accepted
                trusted),
      )
