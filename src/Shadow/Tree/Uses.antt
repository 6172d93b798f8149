-- ===== src/Shadow/Tree/Uses.antt =====
-- What the tree of src/shadows.c says of the order of last uses, and its weights.
use mem_exchange.Prelude.{
  ℕ, ◌+◌, ◌*◌, ◌<◌, ◌≡◌, refl, some, List, [], ◌∷◌, ◌++◌, arith, add32, length, length-append,
}
use mem_exchange.Shadow.Tree.{
  Stamp, TreeNode, Tree, null, node, Frame, left_of, right_of, rewind, distance_from,
  calculate_reuse_distance, reheight, left_rotate,
}

-- the uses in order of time
unfoldable pub flatten : Tree → List Stamp
flatten null = []
flatten (node l d r) = flatten l ++ (d.stamp ∷ flatten r)

abbrev pub uses : Tree → ℕ
uses t = length (flatten t)

-- how many uses are later than all of a subtree
unfoldable pub later : List Frame → ℕ
later [] = 0
later (left_of d r ∷ path) = uses r + 1 + later path
later (right_of l d ∷ path) = later path

-- a node's weight counts the uses on its right
unfoldable pub IsWeighted : Tree → Type 0
IsWeighted null = Unit {0}
IsWeighted (node l d r) = IsWeighted l × (d.weight ≡ uses r) × IsWeighted r

rewind-IsWeighted : (path : List Frame) (t : Tree) → IsWeighted (rewind path t) → IsWeighted t
unfolding rewind IsWeighted
rewind-IsWeighted [] t w = w
rewind-IsWeighted (left_of d r ∷ path) t w =
    let (l, _, _) = rewind-IsWeighted path (node t d r) w in l
rewind-IsWeighted (right_of l d ∷ path) t w =
    let (_, _, r) = rewind-IsWeighted path (node l d t) w in r

distance_from-later :
    (path : List Frame) (t : Tree) (x : ℕ)
    → IsWeighted (rewind path t)
    → x + later path < 4294967296
    → distance_from x path ≡ x + later path
unfolding rewind IsWeighted distance_from later
distance_from-later [] t x w b = ground arith
distance_from-later (left_of d r ∷ path) t x w b =
    let (_, weight, _) = rewind-IsWeighted path (node t d r) w in
    let sum : add32 x (add32 d.weight 1) ≡ x + (uses r + 1) = ground (arith, weight) in
    rw (sum) (ground (arith, distance_from-later path (node t d r) (x + (uses r + 1)) w))
distance_from-later (right_of l d ∷ path) t x w b = distance_from-later path (node l d t) x w b

-- In a tree with right weights, the reuse distance of a node is the number of uses after its own, if
-- that is below 2 ^ 31.
pub calculate_reuse_distance-later :
    (path : List Frame) (l : Tree) (d : TreeNode) (r : Tree)
    → IsWeighted (rewind path (node l d r))
    → uses r + later path < 2147483648
    → calculate_reuse_distance d path ≡ uses r + later path
unfolding IsWeighted
calculate_reuse_distance-later path l d r w b =
    let (_, weight, _) = rewind-IsWeighted path (node l d r) w in
    rw (weight) (distance_from-later path (node l d r) (uses r) w (omega arith))

-- After a left rotation in a tree with right weights, the reuse distance of the node that goes down
-- is more than the number of uses after its own, by the node that goes up and those on its right.
pub left_rotate_overcounts :
    (path : List Frame) (a b c : Tree) (x y : TreeNode)
    → IsWeighted (rewind path (node a x (node b y c)))
    → uses b + 2 * (uses c + 1) + later path < 2147483648
    → (left_rotate (node a x (node b y c)) ≡ some (reheight (reheight a x b) y c))
      × (calculate_reuse_distance x (left_of y c ∷ path)
          ≡ (uses b + later (left_of y c ∷ path)) + (uses c + 1))
unfolding left_rotate distance_from later IsWeighted flatten
left_rotate_overcounts path a b c x y w small =
    let (_, weight_x, (_, weight_y, _)) = rewind-IsWeighted path (node a x (node b y c)) w in
    let sum : add32 x.weight (add32 y.weight 1) ≡ uses b + 2 * (uses c + 1) =
      ground (arith, weight_x, weight_y, length-append (flatten b) (y.stamp ∷ flatten c)) in
    (
      refl,
      rw (sum) (
          ground (
            arith,
            distance_from-later path (node a x (node b y c)) (uses b + 2 * (uses c + 1)) w,
          )),
    )
