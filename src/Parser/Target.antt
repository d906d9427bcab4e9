-- ===== src/Parser/Target.antt =====
-- The length at which the parser stops adding bytes to a message: what it then knows decides the
-- next target. A message whose length has reached its last target is complete.
use grizol.Prelude.{
  ℕ, ◌+◌, ◌-◌, ◌≤◌, ◌<◌, ◌≡◌, refl, Bool, true, false, Option, none, some, ◌++◌, append_assoc,
  length, length-append, drop, take-append_le, drop-append_le, length-drop, ltb, ◌==◌, ◌⊎◌,
  if◌then◌else◌, arith,
}
use grizol.Prelude.Outcome.{ok}
use grizol.Prelude.Bytes.{Bytes, number_at}
use grizol.Proto.{Header}
use grizol.Parser.Incoming.{
  Decoders, BepAuthStatus, pre_hello, post_hello, IncomingMessage, IncomingMessageStatus,
  incomplete, complete, status, missing_message_bytes, add_data,
}

pub number_at-append :
    (k at : ℕ) (xs ys : Bytes) → at + k ≤ length xs → number_at k at (xs ++ ys) ≡ number_at k at xs
number_at-append k at xs ys h =
    rw (drop-append_le at xs ys (omega arith))
      (rw (take-append_le k (drop at xs) ys (omega (arith, length-drop at xs))))

-- The body length announced in a header of `header_end` bytes with its own length.
abbrev pub header_end : Bytes → ℕ
header_end d = 2 + number_at 2 0 d

abbrev pub target_of : BepAuthStatus → Option Header → Bytes → ℕ
target_of pre_hello h d = if ltb (length d) 6 then 6 else 6 + number_at 2 4 d
target_of post_hello none d = if ltb (length d) 2 then 2 else header_end d
target_of post_hello (some h) d =
    if ltb (length d) (header_end d + 4)
    then header_end d + 4
    else header_end d + 4 + number_at 4 (header_end d) d

abbrev pub target : IncomingMessage → ℕ
target im = target_of im.auth_status im.header im.data_bytes

abbrev pub LoadedAt : BepAuthStatus → Option Header → Bytes → Type 0
LoadedAt pre_hello none d = length d ≤ target_of pre_hello none d
LoadedAt pre_hello (some h) d = ⊥
LoadedAt post_hello none d = length d < target_of post_hello none d
LoadedAt post_hello (some h) d =
    (2 ≤ length d) × (header_end d ≤ length d) × (length d ≤ target_of post_hello (some h) d)

-- A message as the parser may hold it after `add_data`: it was never filled past its target.
abbrev pub IsLoaded : IncomingMessage → Type 0
IsLoaded im = LoadedAt im.auth_status im.header im.data_bytes

-- A message that still lacks bytes.
abbrev pub IsWaiting : IncomingMessage → Type 0
IsWaiting im = IsLoaded im × (length im.data_bytes < target im)

abbrev pub reached : Bool → IncomingMessageStatus
reached true = complete
reached false = incomplete

abbrev message : BepAuthStatus → Option Header → Bytes → IncomingMessage
message s h d = record { auth_status = s; data_bytes = d; header = h }

status_at_target :
    {E : Type 0} (s : BepAuthStatus) (h : Option Header) (d : Bytes)
    → LoadedAt s h d
    → status {E = E} (message s h d) ≡ ok (reached (length d == target_of s h d))
unfolding status
status_at_target pre_hello none d l = ground arith
status_at_target pre_hello (some h) d l = absurd l
status_at_target post_hello none d l = ground arith
status_at_target post_hello (some h) d l = ground arith

-- A loaded message is complete exactly when it has reached its target.
pub status-IsLoaded :
    {E : Type 0} (im : IncomingMessage)
    → IsLoaded im
    → status {E = E} im ≡ ok (reached (length im.data_bytes == target im))
status-IsLoaded im l = status_at_target im.auth_status im.header im.data_bytes l

pub length-le-target :
    (im : IncomingMessage)
    → IsLoaded im
    → (length im.data_bytes ≡ target im) ⊎ (length im.data_bytes < target im)
length-le-target im l = at im.auth_status im.header im.data_bytes l
  where
    at :
        (s : BepAuthStatus) (h : Option Header) (d : Bytes)
        → LoadedAt s h d
        → (length d ≡ target_of s h d) ⊎ (length d < target_of s h d)
    at pre_hello none d l = omega arith
    at pre_hello (some h) d l = absurd l
    at post_hello none d l = omega arith
    at post_hello (some h) d l = omega arith

-- How much of the body is missing, once the header is there: unknown before its length is.
pub missing_message_bytes_post :
    {E : Type 0} (h : Header) (d : Bytes)
    → LoadedAt post_hello (some h) d
    → missing_message_bytes {E = E} (message post_hello (some h) d)
      ≡ ok (
          if ltb (length d) (header_end d + 4)
          then none
          else some (target_of post_hello (some h) d - length d))
unfolding missing_message_bytes
missing_message_bytes_post h d l = ground arith

-- Bytes that do not reach the target do not move it.
pub target-append :
    (s : BepAuthStatus) (h : Option Header) (d xs : Bytes)
    → LoadedAt s h d
    → length d + length xs < target_of s h d
    → target_of s h (d ++ xs) ≡ target_of s h d
target-append pre_hello none d xs l m =
    ground (arith, length-append d xs, number_at-append 2 4 d xs)
target-append pre_hello (some h) d xs l m = absurd l
target-append post_hello none d xs l m =
    ground (arith, length-append d xs, number_at-append 2 0 d xs)
target-append post_hello (some h) d xs l m =
    ground
      (arith, length-append d xs, number_at-append 2 0 d xs, number_at-append 4 (header_end d) d xs)

module _ (decoders : Decoders) where
  add_data_short_at :
      (s : BepAuthStatus) (h : Option Header) (d xs : Bytes)
      → LoadedAt s h d
      → length d + length xs < target_of s h d
      → add_data decoders (message s h d) xs ≡ ok (message s h (d ++ xs))
  unfolding add_data
  add_data_short_at pre_hello h d xs l m = refl
  add_data_short_at post_hello none d xs l m =
      ground (arith, length-append d xs, number_at-append 2 0 d xs)
  add_data_short_at post_hello (some h) d xs l m = refl

  -- Such bytes are appended, and change nothing else.
  pub add_data_short :
      (im : IncomingMessage) (xs : Bytes)
      → IsWaiting im
      → length im.data_bytes + length xs < target im
      → add_data decoders im xs ≡ ok (record im { data_bytes = im.data_bytes ++ xs })
  add_data_short im xs w m = add_data_short_at im.auth_status im.header im.data_bytes xs w.0 m

  -- The same message results from one call with all bytes as from a call for each part.
  add_data_again_at :
      (s : BepAuthStatus) (h : Option Header) (d xs ys : Bytes)
      → add_data decoders (message s h (d ++ xs)) ys ≡ add_data decoders (message s h d) (xs ++ ys)
  unfolding add_data
  add_data_again_at s h d xs ys = rw (append_assoc d xs ys)

  pub add_data_again :
      (im : IncomingMessage) (xs ys : Bytes)
      → add_data decoders (record im { data_bytes = im.data_bytes ++ xs }) ys
        ≡ add_data decoders im (xs ++ ys)
  add_data_again im xs ys = add_data_again_at im.auth_status im.header im.data_bytes xs ys

  add_data_full_at :
      (s : BepAuthStatus) (h : Option Header) (d xs : Bytes) (im' : IncomingMessage)
      → LoadedAt s h d
      → length d + length xs ≤ target_of s h d
      → add_data decoders (message s h d) xs ≡ ok im'
      → IsLoaded im' × (im'.data_bytes ≡ d ++ xs) × (im'.auth_status ≡ s)
  unfolding add_data
  add_data_full_at pre_hello none d xs im' l m e =
      ground (arith, length-append d xs, number_at-append 2 4 d xs)
  add_data_full_at pre_hello (some h) d xs im' l m e = absurd l
  add_data_full_at post_hello none d xs im' l m e =
      ground (arith, length-append d xs, number_at-append 2 0 d xs)
  add_data_full_at post_hello (some h) d xs im' l m e =
      ground (
        arith,
        length-append d xs,
        number_at-append 2 0 d xs,
        number_at-append 4 (header_end d) d xs,
      )

  -- Bytes up to the target are appended, and the message is not filled past its next target.
  pub add_data_full :
      (im : IncomingMessage) (xs : Bytes) {im' : IncomingMessage}
      → IsWaiting im
      → length im.data_bytes + length xs ≤ target im
      → add_data decoders im xs ≡ ok im'
      → IsLoaded im' × (im'.data_bytes ≡ im.data_bytes ++ xs) × (im'.auth_status ≡ im.auth_status)
  add_data_full im xs {im'} w m e =
      add_data_full_at im.auth_status im.header im.data_bytes xs im' w.0 m e
