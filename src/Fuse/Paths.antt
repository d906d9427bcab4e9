-- ===== src/Fuse/Paths.antt =====
-- Which paths the tree of src/fuse.rs has, before and after a file is inserted.
use grizol.Prelude.{
  ◌≡◌, refl, sym, ap, ◌∙◌, Bool, true, false, ◌&&◌, ◌||◌, Option, none, some, List, [], ◌∷◌, ◌++◌,
  if◌then◌else◌, arith,
}
use grizol.Prelude.Keys.{Eq, bytes_eq, list_eq}
use grizol.Prelude.Bytes.{Bytes}
use grizol.Fuse.{
  FsNode, node, Children, empty, child, get_child, insert_child, children_of, with_children,
  put_child, and_then, insert_at, parents, last,
}

instance abbrev pub path_eq : Eq (List Bytes)
path_eq = list_eq ⦃e = bytes_eq⦄

abbrev pub some_has : Option FsNode → (FsNode → Bool) → Bool
some_has none f = false
some_has (some n) f = f n

-- Whether the walk along the names comes to a node.
abbrev pub has_path : List Bytes → FsNode → Bool
has_path [] n = true
has_path (x ∷ xs) n = some_has (get_child x (children_of n)) (has_path xs)

get_child-insert_child :
    (j k : Bytes) (n : FsNode) (cs : Children)
    → get_child j (insert_child k n cs) ≡ (if bytes_eq.beq k j then some n else get_child j cs)
get_child-insert_child j k n empty = refl
get_child-insert_child j k n (child i c cs) = ground (
  arith,
  get_child-insert_child j k n cs,
  bytes_eq.beq_iff k j,
  bytes_eq.beq_iff i k,
  bytes_eq.beq_iff i j,
)

pub children_of-with_children : (n : FsNode) (cs : Children) → children_of (with_children n cs) ≡ cs
children_of-with_children (node i t old) cs = refl

pub get_child-put_child :
    (j k : Bytes) (new n : FsNode)
    → get_child j (children_of (put_child k new n))
      ≡ (if bytes_eq.beq k j then some new else get_child j (children_of n))
get_child-put_child j k new n =
    ap (get_child j) (children_of-with_children n (insert_child k new (children_of n)))
    ∙ get_child-insert_child j k new (children_of n)

-- A walk that comes to a node of the names goes on from it.
pub parents-last : (xs : List Bytes) (x : Bytes) → last xs ≡ some x → xs ≡ parents xs ++ x ∷ []
parents-last [] x e = ground arith
parents-last (y ∷ []) x e = ground arith
parents-last (y ∷ z ∷ zs) x e = ap (λ ws. y ∷ ws) (parents-last (z ∷ zs) x e)

pub and_then-eq-some :
    {A B : Type 0} (o : Option A) (f : A → Option B) (b : B)
    → and_then o f ≡ some b
    → (a : A) × (o ≡ some a) × (f a ≡ some b)
and_then-eq-some none f b e = ground arith
and_then-eq-some (some a) f b e = (a, refl, e)

pub some_has-eq-true :
    (o : Option FsNode) (f : FsNode → Bool)
    → some_has o f ≡ true
    → (n : FsNode) × (o ≡ some n) × (f n ≡ true)
some_has-eq-true none f e = ground arith
some_has-eq-true (some n) f e = (n, refl, e)

-- An insertion succeeds where the names before the last one are a path.
pub insert_at-some :
    (xs : List Bytes) (name : Bytes) (new n : FsNode)
    → has_path xs n ≡ true
    → (n' : FsNode) × (insert_at xs name new n ≡ some n')
insert_at-some [] name new n h = (put_child name new n, refl)
insert_at-some (x ∷ xs) name new n h =
    let (m, e, h') = some_has-eq-true (get_child x (children_of n)) (has_path xs) h in
    let (m', e') = insert_at-some xs name new m h' in
    (
      put_child x m' n,
      ap (λ o. and_then o (λ m. and_then (insert_at xs name new m) (λ m'. some (put_child x m' n))))
            e
          ∙ ap (λ o. and_then o (λ m'. some (put_child x m' n))) e',
    )

none_below :
    (x : Bytes) (xs : List Bytes) (name : Bytes) (new n : FsNode) (o : Option FsNode)
    → ((m : FsNode) → has_path xs m ≡ false → insert_at xs name new m ≡ none)
    → some_has o (has_path xs) ≡ false
    → and_then o (λ m. and_then (insert_at xs name new m) (λ m'. some (put_child x m' n))) ≡ none
none_below x xs name new n none ih h = refl
none_below x xs name new n (some m) ih h =
    ap (λ o. and_then o (λ m'. some (put_child x m' n))) (ih m h)

-- It fails where they are not.
pub insert_at-none :
    (xs : List Bytes) (name : Bytes) (new n : FsNode)
    → has_path xs n ≡ false
    → insert_at xs name new n ≡ none
insert_at-none [] name new n h = ground arith
insert_at-none (x ∷ xs) name new n h =
    none_below x xs name new n (get_child x (children_of n)) (insert_at-none xs name new) h

pub some_inj : {A : Type 0} {a b : A} → some a ≡ some b → a ≡ b
some_inj e = cc

has_path_leaf :
    (n : FsNode) (y : Bytes) (ys : List Bytes) → children_of n ≡ empty → has_path (y ∷ ys) n ≡ false
has_path_leaf n y ys e = ap (λ cs. some_has (get_child y cs) (has_path ys)) e

at_last :
    (b : Bool) (ys : List Bytes) (new : FsNode) (o : Option FsNode)
    → children_of new ≡ empty
    → (b ≡ true → some_has o (has_path []) ≡ false)
    → some_has (if b then some new else o) (has_path ys)
      ≡ ((b && path_eq.beq [] ys) || some_has o (has_path ys))
at_last false ys new o leaf absent = refl
at_last true [] new o leaf absent = refl
at_last true (z ∷ zs) new none leaf absent = has_path_leaf new z zs leaf
at_last true (z ∷ zs) new (some m) leaf absent = ground (arith, absent refl)

further :
    (b c : Bool) (ys : List Bytes) (m m' : FsNode) (o : Option FsNode)
    → (b ≡ true → o ≡ some m)
    → has_path ys m' ≡ (c || has_path ys m)
    → some_has (if b then some m' else o) (has_path ys) ≡ ((b && c) || some_has o (has_path ys))
further false c ys m m' o same ih = refl
further true c ys m m' o same ih = ih ∙ ap (λ p. c || some_has p (has_path ys)) (sym (same refl))

-- The only new path is that of the new node, where its names were no path.
pub has_path-insert_at :
    (xs : List Bytes) (name : Bytes) (new n n' : FsNode) (q : List Bytes)
    → children_of new ≡ empty
    → has_path (xs ++ name ∷ []) n ≡ false
    → insert_at xs name new n ≡ some n'
    → has_path q n' ≡ (path_eq.beq (xs ++ name ∷ []) q || has_path q n)
has_path-insert_at xs name new n n' [] leaf h e = ground arith
has_path-insert_at [] name new n n' (y ∷ ys) leaf h e =
    ap (has_path (y ∷ ys)) (sym (some_inj e))
    ∙ ap (λ o. some_has o (has_path ys)) (get_child-put_child y name new n)
    ∙ at_last (bytes_eq.beq name y) ys new (get_child y (children_of n)) leaf (λ e.
      ap (λ z. some_has (get_child z (children_of n)) (has_path []))
        (sym ((bytes_eq.beq_iff name y).0 e))
      ∙ h)
has_path-insert_at (x ∷ xs) name new n n' (y ∷ ys) leaf h e =
    let (m, found, e₁) =
      and_then-eq-some (get_child x (children_of n))
        (λ m. and_then (insert_at xs name new m) (λ m'. some (put_child x m' n))) n' e in
    let (m', e₂, e₃) =
      and_then-eq-some (insert_at xs name new m) (λ m'. some (put_child x m' n)) n' e₁ in
    let absent : has_path (xs ++ name ∷ []) m ≡ false =
      ap (λ o. some_has o (has_path (xs ++ name ∷ []))) (sym found) ∙ h in
    ap (has_path (y ∷ ys)) (sym (some_inj e₃))
    ∙ ap (λ o. some_has o (has_path ys)) (get_child-put_child y x m' n)
    ∙ further (bytes_eq.beq x y) (path_eq.beq (xs ++ name ∷ []) ys) ys m m'
        (get_child y (children_of n))
        (λ e. ap (λ z. get_child z (children_of n)) (sym ((bytes_eq.beq_iff x y).0 e)) ∙ found)
        (has_path-insert_at xs name new m m' ys leaf absent e₂)

at_last_le :
    (b : Bool) (ys : List Bytes) (new : FsNode) (o : Option FsNode)
    → children_of new ≡ empty
    → some_has (if b then some new else o) (has_path ys) ≡ true
    → ((b && path_eq.beq [] ys) || some_has o (has_path ys)) ≡ true
at_last_le false ys new o leaf h = h
at_last_le true [] new o leaf h = refl
at_last_le true (z ∷ zs) new o leaf h = ground (arith, has_path_leaf new z zs leaf, h)

further_le :
    (b c : Bool) (ys : List Bytes) (m m' : FsNode) (o : Option FsNode)
    → (b ≡ true → o ≡ some m)
    → (has_path ys m' ≡ true → (c || has_path ys m) ≡ true)
    → some_has (if b then some m' else o) (has_path ys) ≡ true
    → ((b && c) || some_has o (has_path ys)) ≡ true
further_le false c ys m m' o same ih h = h
further_le true c ys m m' o same ih h = ap (λ p. c || some_has p (has_path ys)) (same refl) ∙ ih h

-- A path of the new tree is that of the new node or was one before.
pub has_path-insert_at_le :
    (xs : List Bytes) (name : Bytes) (new n n' : FsNode) (q : List Bytes)
    → children_of new ≡ empty
    → insert_at xs name new n ≡ some n'
    → has_path q n' ≡ true
    → (path_eq.beq (xs ++ name ∷ []) q || has_path q n) ≡ true
has_path-insert_at_le xs name new n n' [] leaf e h = ground arith
has_path-insert_at_le [] name new n n' (y ∷ ys) leaf e h =
    at_last_le (bytes_eq.beq name y) ys new (get_child y (children_of n)) leaf (
      ap (λ o. some_has o (has_path ys)) (sym (get_child-put_child y name new n))
      ∙ ap (has_path (y ∷ ys)) (some_inj e)
      ∙ h)
has_path-insert_at_le (x ∷ xs) name new n n' (y ∷ ys) leaf e h =
    let (m, found, e₁) =
      and_then-eq-some (get_child x (children_of n))
        (λ m. and_then (insert_at xs name new m) (λ m'. some (put_child x m' n))) n' e in
    let (m', e₂, e₃) =
      and_then-eq-some (insert_at xs name new m) (λ m'. some (put_child x m' n)) n' e₁ in
    further_le (bytes_eq.beq x y) (path_eq.beq (xs ++ name ∷ []) ys) ys m m'
      (get_child y (children_of n))
      (λ e. ap (λ z. get_child z (children_of n)) (sym ((bytes_eq.beq_iff x y).0 e)) ∙ found)
      (has_path-insert_at_le xs name new m m' ys leaf e₂)
      (ap (λ o. some_has o (has_path ys)) (sym (get_child-put_child y x m' n))
        ∙ ap (has_path (y ∷ ys)) (some_inj e₃)
        ∙ h)
