-- ===== src/Processor/Ids.antt =====
-- The ids of new requests.
use grizol.Prelude.{◌≡◌, ap, ◌∙◌, List, [], ◌∷◌, arith}
use grizol.Prelude.Int.{ℤ, pos, ◌+ℤ◌}
use grizol.Prelude.Outcome.{ok, >>=-eq-ok}
use grizol.Proto.{Request}
use grizol.Processor.{BlockInfoExt, add_i32, request_of, requests_from_blocks}

-- The requests for the blocks, with the ids that follow `id`.
abbrev pub numbered : ℤ → List BlockInfoExt → List Request
numbered id [] = []
numbered id (b ∷ bs) = request_of (id +ℤ pos 1) b ∷ numbered (id +ℤ pos 1) bs

pub requests_from_blocks-numbered :
    {E : Type 0} (id : ℤ) (bs : List BlockInfoExt) (rs : List Request)
    → requests_from_blocks {E = E} id bs ≡ ok rs
    → rs ≡ numbered id bs
unfolding requests_from_blocks
requests_from_blocks-numbered id [] rs h = ground arith
requests_from_blocks-numbered {E} id (b ∷ bs) rs h =
    let (next, e1, e2) = >>=-eq-ok (add_i32 {E = E} id (pos 1)) _ h in
    let (rest, e3, e4) = >>=-eq-ok (requests_from_blocks {E = E} next bs) _ e2 in
    let same : next ≡ id +ℤ pos 1 = ground arith in
    let tail = requests_from_blocks-numbered next bs rest e3 in
    let whole : rs ≡ request_of next b ∷ rest = cc in
    whole ∙ ap (λ ys. request_of next b ∷ ys) tail ∙ ap (λ i. request_of i b ∷ numbered i bs) same
