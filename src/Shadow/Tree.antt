-- ===== src/Shadow/Tree.antt =====
-- The tree of last uses in src/shadows.c: its nodes, the rotations, insertion and the reuse distance.
-- A node with its way to the root is a subtree with the frames above it, which are the parent pointers.
pub mod Uses
pub mod Insertion
use mem_exchange.Prelude.{
  ℕ, zero, suc, ◌+◌, ◌-◌, ◌%◌, ◌≤◌, ◌<◌, ◌≡◌, ◌≢◌, refl, ap, sym, ◌∙◌, Bool, true, false, not, ◌&&◌,
  ◌||◌, Option, none, some, List, [], ◌∷◌, ◌==◌, ltb, leb, arith, if◌then◌else◌, add32, sub32, ℤ,
  pos, negsuc, ◌+ℤ◌, ltb_ℤ, max, pos_part,
}

-- the time of last use and the address of the item, by which nodes are compared
pub record Stamp : Type 0 where
  pub tv_sec : ℕ
  pub tv_usec : ℕ
  pub shadow_item : ℕ

pub record TreeNode : Type 0 where
  pub stamp : Stamp
  pub weight : ℕ
  pub height : ℕ

pub data Tree : Type 0 where
  null : Tree
  node : Tree → TreeNode → Tree → Tree

-- the parent of a left child, with its right subtree, or of a right child, with its left subtree
pub data Frame : Type 0 where
  left_of : TreeNode → Tree → Frame
  right_of : Tree → TreeNode → Frame

-- `height`, one more than the source's: zero for NULL, whose height is -1
abbrev pub height_1 : Tree → ℕ
height_1 null = 0
height_1 (node l d r) = d.height + 1

-- `1 + max(height(left), height(right))`
abbrev pub reheight : Tree → TreeNode → Tree → Tree
reheight l d r = node l (record d { height = max (height_1 l) (height_1 r) }) r

-- a null pointer that is followed is `none`
unfoldable pub left_rotate : Tree → Option Tree
left_rotate (node a x (node b y c)) = some (reheight (reheight a x b) y c)
left_rotate (node a x null) = none
left_rotate null = none

unfoldable pub right_rotate : Tree → Option Tree
right_rotate (node (node a y b) x c) = some (reheight a y (reheight b x c))
right_rotate (node null x c) = none
right_rotate null = none

-- `balance_factor(n) <= -2 || balance_factor(n) >= 2`
abbrev pub unbalanced : Tree → Bool
unbalanced null = false
unbalanced (node l d r) = leb (height_1 l + 2) (height_1 r) || leb (height_1 r + 2) (height_1 l)

unfoldable pub compare_nodes : Stamp → Stamp → ℤ
compare_nodes a b =
    if not (a.tv_sec == b.tv_sec)
    then if ltb a.tv_sec b.tv_sec then negsuc 0 else pos 1
    else if not (a.tv_usec == b.tv_usec)
    then if ltb a.tv_usec b.tv_usec then negsuc 0 else pos 1
    else if ltb a.shadow_item b.shadow_item
    then negsuc 0
    else if ltb b.shadow_item a.shadow_item
    then pos 1
    else pos 0

abbrev pub plug : Frame → Tree → Tree
plug (left_of d r) t = node t d r
plug (right_of l d) t = node l d t

-- the whole tree around a subtree
unfoldable pub rewind : List Frame → Tree → Tree
rewind [] t = t
rewind (f ∷ path) t = rewind path (plug f t)

-- the way down to the place of a new node; the weights of nodes with it on their right grow
unfoldable pub descend : Stamp → Tree → List Frame → List Frame
descend n null path = path
descend n (node l d r) path =
    if ltb_ℤ (compare_nodes n d.stamp) (pos 0)
    then descend n l (left_of d r ∷ path)
    else descend n r (right_of l (record d { weight = add32 d.weight 1 }) ∷ path)

-- the four cases at an unbalanced `x` with its child `y` and grandchild `z`
unfoldable pub rotate : Frame → Frame → Tree → Option Tree
rotate (left_of dy ry) (left_of dx rx) z = right_rotate (node (reheight z dy ry) dx rx)
rotate (right_of ly dy) (left_of dx rx) z = elim (left_rotate (reheight ly dy z)) [
  | none ↦ none
  | some y ↦ right_rotate (node y dx rx)
]
rotate (right_of ly dy) (right_of lx dx) z = left_rotate (node lx dx (reheight ly dy z))
rotate (left_of dy ry) (right_of lx dx) z = elim (right_rotate (reheight z dy ry)) [
  | none ↦ none
  | some y ↦ left_rotate (node lx dx y)
]

abbrev pub reheighten : Frame → Tree → Tree
reheighten (left_of d r) t = reheight t d r
reheighten (right_of l d) t = reheight l d t

-- the way up: heights are set until an unbalanced grandparent is rotated
unfoldable pub climb : Tree → List Frame → Option Tree
climb z [] = some z
climb z (f ∷ []) = some (reheighten f z)
climb z (f ∷ g ∷ path) =
    let rest = climb (reheighten f z) (g ∷ path) in
    if unbalanced (plug g (reheighten f z))
    then elim (rotate f g z) [ none ↦ none | some x ↦ some (rewind path x) ]
    else rest

-- `new_tree_node` and `insert_tree_node`
unfoldable pub insert_tree_node : Stamp → Tree → Option Tree
insert_tree_node n t =
    climb (node null (record { stamp = n; weight = 0; height = 1 }) null) (descend n t [])

-- from the node's own weight to the root
unfoldable pub distance_from : ℕ → List Frame → ℕ
distance_from x [] = x
distance_from x (left_of d r ∷ path) = distance_from (add32 x (add32 d.weight 1)) path
distance_from x (right_of l d ∷ path) = distance_from x path

abbrev pub calculate_reuse_distance : TreeNode → List Frame → ℕ
calculate_reuse_distance d path = distance_from d.weight path

-- `fix_weights`, before a node is taken out: one less on the right of its ancestors
unfoldable pub fix_weights : List Frame → List Frame
fix_weights [] = []
fix_weights (left_of d r ∷ path) = left_of d r ∷ fix_weights path
fix_weights (right_of l d ∷ path) =
    right_of l (record d { weight = sub32 d.weight 1 }) ∷ fix_weights path
