-- ===== src/Requests/Accounts.antt =====
-- What the operations of `OutgoingRequests` keep: the pending requests are distinct, and
-- `requested_size` is the sum of their sizes.
use grizol.Prelude.{◌+◌, ◌≤◌, ◌≡◌, Bool, true, false, ◌||◌, List, [], ◌∷◌, ◌++◌, length, arith}
use grizol.Requests.Keys.{OutgoingRequest, key_eq}
use grizol.Requests.{Queue, as_usize, contains, discard, sum_sizes, in_queue}

-- No request stands twice in the list.
abbrev pub Distinct : List OutgoingRequest → Type 0
Distinct [] = Unit
Distinct (k ∷ ks) = (contains k ks ≡ false) × Distinct ks

pub contains-append :
    (k : OutgoingRequest) (xs ys : List OutgoingRequest)
    → contains k (xs ++ ys) ≡ (contains k xs || contains k ys)
unfolding contains
contains-append k [] ys = ground arith
contains-append k (x ∷ xs) ys = ground (arith, contains-append k xs ys)

pub append-Distinct :
    (k : OutgoingRequest) (xs : List OutgoingRequest)
    → Distinct xs
    → contains k xs ≡ false
    → Distinct (xs ++ k ∷ [])
unfolding contains
append-Distinct k [] d h = ground arith
append-Distinct k (x ∷ xs) d h = ground (
  arith,
  contains-append x xs (k ∷ []),
  append-Distinct k xs,
  key_eq.beq_iff x k,
  key_eq.beq_iff k x,
)

discard-absent :
    (k : OutgoingRequest) (xs : List OutgoingRequest) → contains k xs ≡ false → discard k xs ≡ xs
unfolding contains discard
discard-absent k [] h = ground arith
discard-absent k (x ∷ xs) h = ground (arith, discard-absent k xs)

pub contains-discard :
    (j k : OutgoingRequest) (xs : List OutgoingRequest)
    → contains j xs ≡ false
    → contains j (discard k xs) ≡ false
unfolding contains discard
contains-discard j k [] h = ground arith
contains-discard j k (x ∷ xs) h = ground (arith, contains-discard j k xs)

pub discard-Distinct :
    (k : OutgoingRequest) (xs : List OutgoingRequest) → Distinct xs → Distinct (discard k xs)
unfolding discard
discard-Distinct k [] d = ground arith
discard-Distinct k (x ∷ xs) d = ground (arith, discard-Distinct k xs, contains-discard x k xs)

pub sum_sizes-discard :
    (k : OutgoingRequest) (xs : List OutgoingRequest)
    → Distinct xs
    → contains k xs ≡ true
    → sum_sizes (discard k xs) + as_usize k.size ≡ sum_sizes xs
unfolding contains discard
sum_sizes-discard k [] d h = ground arith
sum_sizes-discard k (x ∷ xs) d h =
    ground (arith, sum_sizes-discard k xs, discard-absent k xs, key_eq.beq_iff x k)

pub contains-in_queue :
    (keep : Bool) (queue : Queue) (j : OutgoingRequest) (xs : List OutgoingRequest)
    → contains j xs ≡ false
    → contains j (in_queue keep queue xs) ≡ false
unfolding contains
contains-in_queue keep queue j [] h = ground arith
contains-in_queue keep queue j (x ∷ xs) h = ground (arith, contains-in_queue keep queue j xs)

pub in_queue-Distinct :
    (keep : Bool) (queue : Queue) (xs : List OutgoingRequest)
    → Distinct xs
    → Distinct (in_queue keep queue xs)
in_queue-Distinct keep queue [] d = ground arith
in_queue-Distinct keep queue (x ∷ xs) d =
    ground (arith, in_queue-Distinct keep queue xs, contains-in_queue keep queue x xs)

pub sum_sizes-in_queue :
    (queue : Queue) (xs : List OutgoingRequest)
    → sum_sizes (in_queue true queue xs) + sum_sizes (in_queue false queue xs) ≡ sum_sizes xs
sum_sizes-in_queue queue [] = omega arith
sum_sizes-in_queue queue (x ∷ xs) = ground (arith, sum_sizes-in_queue queue xs)

pub length-in_queue :
    (queue : Queue) (xs : List OutgoingRequest) → length (in_queue true queue xs) ≤ length xs
length-in_queue queue [] = omega arith
length-in_queue queue (x ∷ xs) = ground (arith, length-in_queue queue xs)

pub length-discard :
    (k : OutgoingRequest) (xs : List OutgoingRequest) → length (discard k xs) ≤ length xs
unfolding discard
length-discard k [] = omega arith
length-discard k (x ∷ xs) = ground (arith, length-discard k xs)
