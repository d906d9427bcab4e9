-- ===== src/Config/Peers.antt =====
-- A configuration that names its peers by the texts of their ids trusts these ids.
use grizol.Prelude.{ℕ, ◌≡◌, refl, ap, sym, ◌∙◌, true, ◌||◌, List, [], ◌∷◌, ◌++◌, All, arith}
use grizol.Prelude.Outcome.{ok}
use grizol.Prelude.Bytes.{Bytes}
use grizol.DeviceId.{DeviceId, Base32, to_text, try_from_text}
use grizol.DeviceId.Text.{Encodes, try_from_text-to_text}
use grizol.Requests.{contains, add}
use grizol.Config.{
  device_id_eq, Environment, ProtoConfig, GrizolConfig, size_or, config_of, peers_of, from_proto,
}

-- A peer that is named by the text of its id.
pub record Named (base32 : Base32) : Type 0 where
  pub id : DeviceId
  pub digits : Bytes
  pub text : Bytes
  pub encodes : Encodes base32 id digits
  pub shown : to_text base32 id ≡ ok text

module _ (base32 : Base32) where
  abbrev pub texts : List (Named base32) → List Bytes
  texts [] = []
  texts (n ∷ ns) = n.text ∷ texts ns

  named_read : (n : Named base32) → try_from_text base32 n.text ≡ ok n.id
  named_read n =
      let (t, e, back) = try_from_text-to_text base32 n.id n.digits n.encodes in
      let same : t ≡ n.text = cc in ap (try_from_text base32) (sym same) ∙ back

contains-append :
    (d : DeviceId) (xs ys : List DeviceId)
    → contains d (xs ++ ys) ≡ (contains d xs || contains d ys)
unfolding contains
contains-append d [] ys = ground arith
contains-append d (x ∷ xs) ys = ground (arith, contains-append d xs ys)

contains-add : (d : DeviceId) (xs : List DeviceId) → contains d (add d xs) ≡ true
unfolding contains add
contains-add d xs = ground (arith, contains-append d xs (d ∷ []), device_id_eq.beq_iff d d)

contains-add_kept :
    (d x : DeviceId) (xs : List DeviceId) → contains d xs ≡ true → contains d (add x xs) ≡ true
unfolding add
contains-add_kept d x xs h = ground (arith, contains-append d xs (x ∷ []))

peers_of-texts :
    (base32 : Base32) (ns : List (Named base32)) (before : List DeviceId)
    → (ps : List DeviceId) × (peers_of base32 (texts base32 ns) before ≡ ok ps)
      × All (λ n. contains n.id ps ≡ true) ns
      × ((d : DeviceId) → contains d before ≡ true → contains d ps ≡ true)
unfolding peers_of
peers_of-texts base32 [] before = (before, refl, tt, λ d h. h)
peers_of-texts base32 (n ∷ ns) before =
    let (ps, e, all, kept) = peers_of-texts base32 ns (add n.id before) in
    (
      ps,
      rw (named_read base32 n) e,
      (kept n.id (contains-add n.id before), all),
      λ d h. kept d (contains-add_kept d n.id before h),
    )

-- A configuration that names its trusted peers by the texts of their ids, whose sizes are empty or
-- sizes, and whose certificate can be read is converted, and the result trusts each of these ids.
pub from_proto-trusted_peers :
    (env : Environment) (c : ProtoConfig) (ns : List (Named env.base32)) (cache total : ℕ)
    (me : DeviceId)
    → c.trusted_peers ≡ texts env.base32 ns
    → size_or env c.read_cache_size 1000000000 ≡ ok cache
    → size_or env c.max_total_pending_requests_size 1000000000 ≡ ok total
    → env.read_certificate c.cert ≡ ok me
    → (g : GrizolConfig) × (from_proto env c ≡ ok g)
      × All (λ n. contains n.id g.trusted_peers ≡ true) ns
unfolding from_proto
from_proto-trusted_peers env c ns cache total me names h k m =
    let (ps, e, all, kept) = peers_of-texts env.base32 ns [] in
    (config_of env c cache total me ps, rw (h, k, m, names, e) refl, all)
