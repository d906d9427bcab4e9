-- ===== src/Requests/Keys.antt =====
-- `OutgoingRequest` of src/core/outgoing_requests.rs: the key of a request, its equality and its order.
use grizol.Prelude.{
  ◌≡◌, ◌↔◌, Bool, true, false, ◌&&◌, ◌||◌, not, [], ◌∷◌, length, ltb, ◌==◌, if◌then◌else◌, arith,
}
use grizol.Prelude.Int.{ℤ, ltb_ℤ}
use grizol.Prelude.Keys.{Eq, nat_eq, int_eq, bool_eq, bytes_eq}
use grizol.Prelude.Outcome.{Outcome, ok, panic}
use grizol.Prelude.Bytes.{Bytes}
use grizol.Proto.{Request}

pub record OutgoingRequest : Type 0 where
  pub folder : Bytes
  pub name : Bytes
  pub offset : ℤ
  pub size : ℤ
  pub hash : Bytes
  pub from_temporary : Bool

-- The derived `PartialEq`, field by field.
abbrev pub key_beq : OutgoingRequest → OutgoingRequest → Bool
key_beq a b =
    bytes_eq.beq a.folder b.folder
    && (bytes_eq.beq a.name b.name
        && (int_eq.beq a.offset b.offset
            && (int_eq.beq a.size b.size
                && (bytes_eq.beq a.hash b.hash && bool_eq.beq a.from_temporary b.from_temporary))))

pub key_beq_iff : (a b : OutgoingRequest) → (key_beq a b ≡ true) ↔ (a ≡ b)
key_beq_iff a b = ground (
  arith,
  bytes_eq.beq_iff a.folder b.folder,
  bytes_eq.beq_iff a.name b.name,
  int_eq.beq_iff a.offset b.offset,
  int_eq.beq_iff a.size b.size,
  bytes_eq.beq_iff a.hash b.hash,
  bool_eq.beq_iff a.from_temporary b.from_temporary,
)

instance abbrev pub key_eq : Eq OutgoingRequest
key_eq = record { beq = key_beq; beq_iff = key_beq_iff }

-- The order of byte strings.
abbrev pub bytes_before : Bytes → Bytes → Bool
bytes_before xs [] = false
bytes_before [] (y ∷ ys) = true
bytes_before (x ∷ xs) (y ∷ ys) = ltb x y || (x == y && bytes_before xs ys)

-- The derived `Ord`: the first field that differs decides.
abbrev pub before : OutgoingRequest → OutgoingRequest → Bool
before a b =
    bytes_before a.folder b.folder
    || (bytes_eq.beq a.folder b.folder
        && (bytes_before a.name b.name
            || (bytes_eq.beq a.name b.name
                && (ltb_ℤ a.offset b.offset
                    || (int_eq.beq a.offset b.offset
                        && (ltb_ℤ a.size b.size
                            || (int_eq.beq a.size b.size
                                && (bytes_before a.hash b.hash
                                    || (bytes_eq.beq a.hash b.hash
                                        && (not a.from_temporary && b.from_temporary))))))))))

-- `OutgoingRequest::from`: the hash must have 32 bytes.
abbrev pub to_outgoing : {E : Type 0} → Request → Outcome E OutgoingRequest
to_outgoing other =
    if length other.hash == 32
    then ok (record {
      folder = other.folder;
      name = other.name;
      offset = other.offset;
      size = other.size;
      hash = other.hash;
      from_temporary = other.from_temporary;
    })
    else panic
