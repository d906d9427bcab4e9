-- ===== src/Processor/Queued.antt =====
-- Which requests are in the queue after insertions, src/core/outgoing_requests.rs and src/core/bep_state.rs.
use grizol.Prelude.{
  ◌≡◌, refl, sym, ap, ◌∙◌, subst, Bool, true, false, Option, not, ◌&&◌, ◌||◌, ◌⊎◌, inl, inr, some,
  List, [], ◌∷◌, map, ◌==◌, All, arith, if◌then◌else◌,
}
use grizol.Prelude.Int.{ℤ, pos, ◌+ℤ◌}
use grizol.Prelude.Keys.{lookup}
use grizol.Prelude.Outcome.{Outcome, ok, >>=-eq-ok}
use grizol.Proto.{Request}
use grizol.Config.{device_id_eq}
use grizol.Requests.Keys.{OutgoingRequest, key_eq, before}
use grizol.Requests.{Instant, Queue, OutgoingRequests, insert_in_order, insert_request, is_some}
use grizol.Processor.{BlockInfoExt, insert_all}
use grizol.Processor.Ids.{numbered}
use grizol.Processor.Handlers.{Processor}
use grizol.State.Tables.{BlockRow, Database, filter, not_stored, storage_status_code}

abbrev pub is_queued : OutgoingRequest → OutgoingRequests → Bool
is_queued k q = is_some (lookup k q.requests_by_request)

abbrev key_of : Request → OutgoingRequest
key_of r = record {
  folder = r.folder;
  name = r.name;
  offset = r.offset;
  size = r.size;
  hash = r.hash;
  from_temporary = r.from_temporary;
}

abbrev key_of_block : BlockInfoExt → OutgoingRequest
key_of_block b = record {
  folder = b.folder;
  name = b.name;
  offset = b.offset;
  size = b.size;
  hash = b.hash;
  from_temporary = false;
}

-- The request for a block of the database.
abbrev pub key_of_row : BlockRow → OutgoingRequest
key_of_row row = record {
  folder = row.file.folder_device.folder;
  name = row.file.name;
  offset = row.offset;
  size = row.bi_size;
  hash = row.hash;
  from_temporary = false;
}

pub ok_snd :
    {E A S : Type 0} (a b : A) (s t : S)
    → ◌≡◌ {A = Outcome E (A × S)} (ok (a, s)) (ok (b, t))
    → t ≡ s
ok_snd a b s t e = cc

shadowed :
    {A : Type 0} (x y z : Option A) (c d : Bool)
    → d ≡ c
    → (if c then x else z) ≡ (if c then x else if d then y else z)
shadowed x y z true d e = refl
shadowed x y z false true e = absurd (cc)
shadowed x y z false false e = refl

swapped :
    {A : Type 0} (x y z l : Option A) (c d : Bool)
    → (c ≡ true → d ≡ true → ⊥)
    → l ≡ (if c then x else z)
    → (if d then y else l) ≡ (if c then x else if d then y else z)
swapped x y z l true true n e = absurd (n refl refl)
swapped x y z l true false n e = e
swapped x y z l false true n e = refl
swapped x y z l false false n e = e

placed :
    (k i j : OutgoingRequest) (v w : ℤ × Instant) (m : Queue) (a b : Bool)
    → key_eq.beq i k ≡ a
    → lookup j (insert_in_order k v m) ≡ (if key_eq.beq k j then some v else lookup j m)
    → lookup j (
        if a then (k, v) ∷ m else if b then (k, v) ∷ (i, w) ∷ m else (i, w) ∷ insert_in_order k v m)
      ≡ (if key_eq.beq k j then some v else if key_eq.beq i j then some w else lookup j m)
placed k i j v w m true b e h =
    let q : i ≡ k = (key_eq.beq_iff i k).0 e in
    let same : key_eq.beq i j ≡ key_eq.beq k j = ap (λ x. key_eq.beq x j) q in
    shadowed _ _ _ (key_eq.beq k j) (key_eq.beq i j) same
placed k i j v w m false true e h = refl
placed k i j v w m false false e h =
    swapped _ _ _ _ (key_eq.beq k j) (key_eq.beq i j)
      (λ x y. absurd (
        let one = (key_eq.beq_iff k j).0 x in
        let two = (key_eq.beq_iff i j).0 y in
        let three = (key_eq.beq_iff i k).1 (two ∙ sym one) in cc))
      h

lookup-insert_in_order :
    (k j : OutgoingRequest) (v : ℤ × Instant) (m : Queue)
    → lookup j (insert_in_order k v m) ≡ (if key_eq.beq k j then some v else lookup j m)
lookup-insert_in_order k j v [] = refl
lookup-insert_in_order k j v ((i, w) ∷ m) =
    placed k i j v w m (key_eq.beq i k) (before k i) refl (lookup-insert_in_order k j v m)

insert_request-cases :
    {E : Type 0} (now : Instant) (id : ℤ) (r : Request) (s s' : OutgoingRequests)
    (res : Option Request)
    → insert_request {E = E} now id r s ≡ ok (res, s')
    → ((s' ≡ s) × (is_queued (key_of r) s ≡ true))
      ⊎ (s'.requests_by_request ≡ insert_in_order (key_of r) (id, now) s.requests_by_request)
unfolding insert_request
insert_request-cases now id r s s' res h = ground (arith, h)

found_or :
    (k j : OutgoingRequest) (s : OutgoingRequests) (c : Bool)
    → key_eq.beq k j ≡ c
    → is_queued k s ≡ true
    → is_queued j s ≡ (c || is_queued j s)
found_or k j s true e h = subst (λ x. is_queued x s ≡ true) ((key_eq.beq_iff k j).0 e) h
found_or k j s false e h = refl

is_some_or :
    {A : Type 0} (c : Bool) (a : A) (o : Option A)
    → is_some (if c then some a else o) ≡ (c || is_some o)
is_some_or true a o = refl
is_some_or false a o = refl

insert_request-is_queued :
    {E : Type 0} (now : Instant) (id : ℤ) (r : Request) (s s' : OutgoingRequests)
    (res : Option Request) (j : OutgoingRequest)
    → insert_request {E = E} now id r s ≡ ok (res, s')
    → is_queued j s' ≡ (key_eq.beq (key_of r) j || is_queued j s)
insert_request-is_queued {E} now id r s s' res j h =
    let k = key_of r in
    elim (insert_request-cases {E = E} now id r s s' res h) [
      | inl (same, there) ↦ ap (is_queued j) same ∙ found_or k j s (key_eq.beq k j) refl there
      | inr queue ↦
          ap (λ q. is_some (lookup j q)) queue
          ∙ ap is_some (lookup-insert_in_order k j (id, now) s.requests_by_request)
          ∙ is_some_or (key_eq.beq k j) (id, now) (lookup j s.requests_by_request)
    ]

-- Whether one of the requests has the key.
abbrev pub asks : OutgoingRequest → List Request → Bool
asks j [] = false
asks j (r ∷ rs) = key_eq.beq (key_of r) j || asks j rs

pub insert_all-is_queued :
    {E : Type 0} (clock : Request → Instant) (rs res : List Request) (s s' : OutgoingRequests)
    (j : OutgoingRequest)
    → insert_all {E = E} clock rs s ≡ ok (res, s')
    → is_queued j s' ≡ (asks j rs || is_queued j s)
unfolding insert_all
insert_all-is_queued {E} clock [] res s s' j h = ap (is_queued j) (ok_snd {E = E} [] res s s' h)
insert_all-is_queued {E} clock (r ∷ rs) res s s' j h =
    let (x, e₁, e₂) = >>=-eq-ok (insert_request {E = E} (clock r) r.id r s) _ h in
    let (y, e₃, e₄) = >>=-eq-ok (insert_all {E = E} clock rs x.1) _ e₂ in
    let first = insert_request-is_queued {E = E} (clock r) r.id r s x.1 x.0 j e₁ in
    let later = insert_all-is_queued {E = E} clock rs y.0 x.1 y.1 j e₃ in
    let same = ap (is_queued j) (ok_snd {E = E} _ res y.1 s' e₄) in
    ground (arith, first, later, same)

or_true : (a b : Bool) → b ≡ true → (a || b) ≡ true
or_true true b e = refl
or_true false b e = e

module _ (p : Processor) where
  -- A row of a block that this device has not stored.
  abbrev pub is_lacking : BlockRow → Bool
  is_lacking row =
      device_id_eq.beq row.file.folder_device.device_id p.local_device_id
      && row.storage_status == storage_status_code not_stored

  -- Each block that this device has not stored has its request in the queue.
  abbrev pub AreQueued : Database → OutgoingRequests → Type 0
  AreQueued db q =
      All (λ (row : BlockRow). (not (is_lacking row) || is_queued (key_of_row row) q) ≡ true)
        db.blocks

  abbrev pub block_info : BlockRow → BlockInfoExt
  block_info row = record {
    device_id = p.local_device_id;
    folder = row.file.folder_device.folder;
    name = row.file.name;
    hash = row.hash;
    size = row.bi_size;
    offset = row.offset;
  }

  abbrev pub lacking : List BlockRow → List BlockInfoExt
  lacking rows = map block_info (filter is_lacking rows)

  abbrev pub Covers : ℤ → List BlockInfoExt → (OutgoingRequest → Bool) → Type 0
  Covers id bs done = (j : OutgoingRequest) → asks j (numbered id bs) ≡ true → done j ≡ true

  abbrev pub AreDone : (OutgoingRequest → Bool) → List BlockRow → Type 0
  AreDone done rows =
      All (λ (row : BlockRow). (not (is_lacking row) || done (key_of_row row)) ≡ true) rows

  row-done :
      (row : BlockRow) (rows : List BlockRow) (id : ℤ) (done : OutgoingRequest → Bool) (b : Bool)
      → ((next : ℤ) → Covers next (lacking rows) done → AreDone done rows)
      → Covers id
          (map block_info (if b then row ∷ filter is_lacking rows else filter is_lacking rows))
          done
      → ((not b || done (key_of_row row)) ≡ true) × AreDone done rows
  row-done row rows id done true later h =
      let k = key_of_row row in
      (
        h k (
            ap (λ b. b || asks k (numbered (id +ℤ pos 1) (lacking rows)))
              ((key_eq.beq_iff k k).1 refl)),
        later (id +ℤ pos 1) (λ j a. h j (or_true (key_eq.beq k j) _ a)),
      )
  row-done row rows id done false later h = (refl, later id h)

  pub rows-done :
      (rows : List BlockRow) (id : ℤ) (done : OutgoingRequest → Bool)
      → Covers id (lacking rows) done
      → AreDone done rows
  rows-done [] id done h = tt
  rows-done (row ∷ rows) id done h =
      row-done row rows id done (is_lacking row) (λ next. rows-done rows next done) h
