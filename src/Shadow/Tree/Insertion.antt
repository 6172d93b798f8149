-- ===== src/Shadow/Tree/Insertion.antt =====
-- Insertion into the tree of src/shadows.c: rebalancing keeps the order, and the newest use goes last.
use mem_exchange.Prelude.{
  ◌≡◌, refl, ap, ap₂, sym, ◌∙◌, Bool, true, false, Option, none, some, List, [], ◌∷◌, ◌++◌,
  if◌then◌else◌, add32, ltb_ℤ, pos, All,
}
use mem_exchange.Shadow.Tree.{
  Stamp, TreeNode, Tree, null, node, Frame, left_of, right_of, plug, rewind, reheight, left_rotate,
  right_rotate, rotate, climb, descend, insert_tree_node, compare_nodes,
}
use mem_exchange.Shadow.Tree.Uses.{flatten}

append_assoc {ℓ} : {A : Type ℓ} (xs ys zs : List A) → (xs ++ ys) ++ zs ≡ xs ++ (ys ++ zs)
append_assoc [] ys zs = refl
append_assoc (x ∷ xs) ys zs = ap (λ ws. x ∷ ws) (append_assoc xs ys zs)

append_nil {ℓ} : {A : Type ℓ} (xs : List A) → xs ++ [] ≡ xs
append_nil [] = refl
append_nil (x ∷ xs) = ap (λ ws. x ∷ ws) (append_nil xs)

-- the uses on the left and on the right of a subtree
unfoldable earlier : List Frame → List Stamp
earlier [] = []
earlier (left_of d r ∷ path) = earlier path
earlier (right_of l d ∷ path) = earlier path ++ (flatten l ++ (d.stamp ∷ []))

unfoldable latter : List Frame → List Stamp
latter [] = []
latter (left_of d r ∷ path) = (d.stamp ∷ flatten r) ++ latter path
latter (right_of l d ∷ path) = latter path

flatten-rewind :
    (path : List Frame) (t : Tree)
    → flatten (rewind path t) ≡ earlier path ++ (flatten t ++ latter path)
unfolding rewind flatten earlier latter
flatten-rewind [] t = sym (append_nil (flatten t))
flatten-rewind (left_of d r ∷ path) t =
    flatten-rewind path (node t d r)
    ∙ ap (λ ws. earlier path ++ ws) (append_assoc (flatten t) (d.stamp ∷ flatten r) (latter path))
flatten-rewind (right_of l d ∷ path) t = flatten-rewind path (node l d t) ∙ simp (append_assoc)

-- rotations keep the order
rotate-flatten :
    (f g : Frame) (zl : Tree) (zd : TreeNode) (zr : Tree)
    → (t : Tree) × (rotate f g (node zl zd zr) ≡ some t)
      × (flatten t ≡ flatten (plug g (plug f (node zl zd zr))))
unfolding rotate left_rotate right_rotate flatten
rotate-flatten (left_of dy ry) (left_of dx rx) zl zd zr = (_, refl, simp (append_assoc))
rotate-flatten (right_of ly dy) (left_of dx rx) zl zd zr = (_, refl, simp (append_assoc))
rotate-flatten (right_of ly dy) (right_of lx dx) zl zd zr = (_, refl, simp (append_assoc))
rotate-flatten (left_of dy ry) (right_of lx dx) zl zd zr = (_, refl, simp (append_assoc))

flatten-rewind_congr :
    (path : List Frame) (t u : Tree)
    → flatten t ≡ flatten u
    → flatten (rewind path t) ≡ flatten (rewind path u)
flatten-rewind_congr path t u e =
    flatten-rewind path t
    ∙ ap (λ ws. earlier path ++ (ws ++ latter path)) e
    ∙ sym (flatten-rewind path u)

-- what a step of the way up returns, rotated or not
climbed :
    (rotated : Bool) (path : List Frame) (turned above : Option Tree) (all : List Stamp)
    → ((t : Tree) × (turned ≡ some t) × (flatten (rewind path t) ≡ all))
    → ((t : Tree) × (above ≡ some t) × (flatten t ≡ all))
    → (t : Tree) × ((if rotated
          then elim turned [ none ↦ none | some x ↦ some (rewind path x) ]
          else above)
        ≡ some t)
      × (flatten t ≡ all)
climbed true path turned above all (t, run, order) up = (rewind path t, rw (run) refl, order)
climbed false path turned above all r up = up

climb-flatten :
    (path : List Frame) (zl : Tree) (zd : TreeNode) (zr : Tree)
    → (t : Tree) × (climb (node zl zd zr) path ≡ some t)
      × (flatten t ≡ flatten (rewind path (node zl zd zr)))
unfolding climb rewind flatten
climb-flatten [] zl zd zr = (_, refl, refl)
climb-flatten (left_of d r ∷ []) zl zd zr = (_, refl, refl)
climb-flatten (right_of l d ∷ []) zl zd zr = (_, refl, refl)
climb-flatten (left_of d r ∷ g ∷ path) zl zd zr =
    let z = node zl zd zr in
    let (t, run, order) = rotate-flatten (left_of d r) g zl zd zr in
    let (u, up, same) = climb-flatten (g ∷ path) z _ r in
    climbed _ path _ _ _ (t, run, flatten-rewind_congr path t (plug g (plug (left_of d r) z)) order)
      (u, up, same ∙ flatten-rewind_congr (g ∷ path) (reheight z d r) (node z d r) refl)
climb-flatten (right_of l d ∷ g ∷ path) zl zd zr =
    let z = node zl zd zr in
    let (t, run, order) = rotate-flatten (right_of l d) g zl zd zr in
    let (u, up, same) = climb-flatten (g ∷ path) l _ z in
    climbed _ path _ _ _
      (t, run, flatten-rewind_congr path t (plug g (plug (right_of l d) z)) order)
      (u, up, same ∙ flatten-rewind_congr (g ∷ path) (reheight l d z) (node l d z) refl)

All-right {ℓ κ} : {A : Type ℓ} (P : A → Type κ) (xs ys : List A) → All P (xs ++ ys) → All P ys
All-right P [] ys h = h
All-right P (x ∷ xs) ys (p, h) = All-right P xs ys h

-- a use not before any of the tree's goes down to the right
descend_newest :
    (n : Stamp) (t : Tree) (path : List Frame)
    → All (λ d. ltb_ℤ (compare_nodes n d) (pos 0) ≡ false) (flatten t)
    → (earlier (descend n t path) ≡ earlier path ++ flatten t)
      × (latter (descend n t path) ≡ latter path)
unfolding descend flatten earlier latter
descend_newest n null path h = (sym (append_nil _), refl)
descend_newest n (node l d r) path h =
    let (here, right) = All-right _ (flatten l) (d.stamp ∷ flatten r) h in
    let (e, f) =
      descend_newest n r (right_of l (record d { weight = add32 d.weight 1 }) ∷ path) right in
    rw (here) (e ∙ simp (append_assoc), f)

-- The newest use is inserted without following a null pointer, and stands last in the order of uses,
-- which stays as it was, if no use in the tree is later.
pub insert_tree_node-flatten :
    (n : Stamp) (t : Tree)
    → All (λ d. ltb_ℤ (compare_nodes n d) (pos 0) ≡ false) (flatten t)
    → (t' : Tree) × (insert_tree_node n t ≡ some t') × (flatten t' ≡ flatten t ++ (n ∷ []))
unfolding insert_tree_node earlier latter flatten
insert_tree_node-flatten n t newest =
    let path = descend n t [] in
    let (e, l) = descend_newest n t [] newest in
    let (t', run, order) = climb-flatten path null _ null in
    (t', run, order ∙ flatten-rewind path _ ∙ ap₂ (λ ws vs. ws ++ ((n ∷ []) ++ vs)) e l)
