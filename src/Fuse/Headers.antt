-- ===== src/Fuse/Headers.antt =====
-- Which node the tree of src/fuse.rs has under a path, before and after a file is inserted.
use grizol.Prelude.{
  ℕ, ◌≡◌, refl, sym, ap, ◌∙◌, Bool, true, false, ◌&&◌, Option, none, some, List, [], ◌∷◌, ◌++◌,
  if◌then◌else◌, arith,
}
use grizol.Prelude.Keys.{bytes_eq}
use grizol.Prelude.Bytes.{Bytes}
use grizol.Fuse.{
  GrizolFsFileType, FsNode, node, empty, get_child, children_of, put_child, and_then, insert_at,
}
use grizol.Fuse.Attributes.{type_of, id_of, node_at}
use grizol.Fuse.Paths.{path_eq, some_has, has_path, get_child-put_child, and_then-eq-some, some_inj}

-- The number and the type of a node.
abbrev pub Header : Type 0
Header = ℕ × GrizolFsFileType

abbrev pub header : FsNode → Header
header n = (id_of n, type_of n)

abbrev pub header_at : List Bytes → FsNode → Option Header
header_at [] n = some (header n)
header_at (x ∷ xs) n = and_then (get_child x (children_of n)) (header_at xs)

header-put_child : (k : Bytes) (new n : FsNode) → header (put_child k new n) ≡ header n
header-put_child k new (node i t cs) = refl

header_leaf :
    (n : FsNode) (y : Bytes) (ys : List Bytes) → children_of n ≡ empty → header_at (y ∷ ys) n ≡ none
header_leaf n y ys e = ap (λ cs. and_then (get_child y cs) (header_at ys)) e

at_last :
    (b : Bool) (ys : List Bytes) (new : FsNode) (o : Option FsNode)
    → children_of new ≡ empty
    → (b ≡ true → some_has o (has_path []) ≡ false)
    → and_then (if b then some new else o) (header_at ys)
      ≡ (if b && path_eq.beq [] ys then some (header new) else and_then o (header_at ys))
at_last false ys new o leaf absent = refl
at_last true [] new o leaf absent = refl
at_last true (z ∷ zs) new none leaf absent = header_leaf new z zs leaf
at_last true (z ∷ zs) new (some m) leaf absent = ground (arith, absent refl)

further :
    (b c : Bool) (ys : List Bytes) (h : Header) (m m' : FsNode) (o : Option FsNode)
    → (b ≡ true → o ≡ some m)
    → header_at ys m' ≡ (if c then some h else header_at ys m)
    → and_then (if b then some m' else o) (header_at ys)
      ≡ (if b && c then some h else and_then o (header_at ys))
further false c ys h m m' o same ih = refl
further true true ys h m m' o same ih = ih
further true false ys h m m' o same ih = ih ∙ ap (λ p. and_then p (header_at ys)) (sym (same refl))

-- The new node is under its path, and nothing else changes.
pub header_at-insert_at :
    (xs : List Bytes) (name : Bytes) (new n n' : FsNode) (q : List Bytes)
    → children_of new ≡ empty
    → has_path (xs ++ name ∷ []) n ≡ false
    → insert_at xs name new n ≡ some n'
    → header_at q n'
      ≡ (if path_eq.beq (xs ++ name ∷ []) q then some (header new) else header_at q n)
header_at-insert_at [] name new n n' [] leaf h e =
    ap (header_at []) (sym (some_inj e)) ∙ ap some (header-put_child name new n)
header_at-insert_at (x ∷ xs) name new n n' [] leaf h e =
    let (m, found, e₁) =
      and_then-eq-some (get_child x (children_of n))
        (λ m. and_then (insert_at xs name new m) (λ m'. some (put_child x m' n))) n' e in
    let (m', e₂, e₃) =
      and_then-eq-some (insert_at xs name new m) (λ m'. some (put_child x m' n)) n' e₁ in
    ap (header_at []) (sym (some_inj e₃)) ∙ ap some (header-put_child x m' n)
header_at-insert_at [] name new n n' (y ∷ ys) leaf h e =
    ap (header_at (y ∷ ys)) (sym (some_inj e))
    ∙ ap (λ o. and_then o (header_at ys)) (get_child-put_child y name new n)
    ∙ at_last (bytes_eq.beq name y) ys new (get_child y (children_of n)) leaf (λ e.
      ap (λ z. some_has (get_child z (children_of n)) (has_path []))
        (sym ((bytes_eq.beq_iff name y).0 e))
      ∙ h)
header_at-insert_at (x ∷ xs) name new n n' (y ∷ ys) leaf h e =
    let (m, found, e₁) =
      and_then-eq-some (get_child x (children_of n))
        (λ m. and_then (insert_at xs name new m) (λ m'. some (put_child x m' n))) n' e in
    let (m', e₂, e₃) =
      and_then-eq-some (insert_at xs name new m) (λ m'. some (put_child x m' n)) n' e₁ in
    let absent : has_path (xs ++ name ∷ []) m ≡ false =
      ap (λ o. some_has o (has_path (xs ++ name ∷ []))) (sym found) ∙ h in
    ap (header_at (y ∷ ys)) (sym (some_inj e₃))
    ∙ ap (λ o. and_then o (header_at ys)) (get_child-put_child y x m' n)
    ∙ further (bytes_eq.beq x y) (path_eq.beq (xs ++ name ∷ []) ys) ys (header new) m m'
        (get_child y (children_of n))
        (λ e. ap (λ z. get_child z (children_of n)) (sym ((bytes_eq.beq_iff x y).0 e)) ∙ found)
        (header_at-insert_at xs name new m m' ys leaf absent e₂)

node_of_found :
    (xs : List Bytes) (h : Header) (o : Option FsNode)
    → ((m : FsNode)
        → header_at xs m ≡ some h
        → (k : FsNode) × (node_at xs m ≡ some k) × (header k ≡ h))
    → and_then o (header_at xs) ≡ some h
    → (k : FsNode) × (and_then o (node_at xs) ≡ some k) × (header k ≡ h)
node_of_found xs h none ih e = ground arith
node_of_found xs h (some m) ih e = ih m e

-- A header is that of a node.
pub node_at-header :
    (xs : List Bytes) (h : Header) (n : FsNode)
    → header_at xs n ≡ some h
    → (k : FsNode) × (node_at xs n ≡ some k) × (header k ≡ h)
node_at-header [] h n e = (n, refl, cc)
node_at-header (x ∷ xs) h n e =
    node_of_found xs h (get_child x (children_of n)) (node_at-header xs h) e
