-- ===== src/Tests/TreeTests.antt =====
-- The tree of last uses of src/shadows.c at three uses in order of time.
use mem_exchange.Prelude.{ℕ, ◌≡◌, refl, some, [], ◌∷◌}
use mem_exchange.Shadow.Tree.{
  Stamp, TreeNode, Tree, null, node, insert_tree_node, descend, climb, rotate, left_rotate,
  compare_nodes, rewind,
}
use mem_exchange.Shadow.Tree.Uses.{flatten, IsWeighted}
use mem_exchange.Shadow.Tree.Insertion.{insert_tree_node-flatten}

abbrev at_second : ℕ → Stamp
at_second n = record { tv_sec = n; tv_usec = 0; shadow_item = 7 }

abbrev use_node : ℕ → ℕ → ℕ → TreeNode
use_node n weight height = record { stamp = at_second n; weight = weight; height = height }

-- two uses, the later one on the right
abbrev pair : Tree
pair = node null (use_node 1 1 2) (node null (use_node 2 0 1) null)

-- three uses in a row, before the rotation
abbrev row : Tree
row = node null (use_node 1 2 2) (node null (use_node 2 1 2) (node null (use_node 3 0 1) null))

insert_tree_node-flatten_example :
    (t : Tree) × (insert_tree_node (at_second 3) pair ≡ some t)
    × (flatten t ≡ at_second 1 ∷ at_second 2 ∷ at_second 3 ∷ [])
unfolding flatten compare_nodes
insert_tree_node-flatten_example = insert_tree_node-flatten (at_second 3) pair (refl, (refl, tt))

-- the insertion of the third use rotates
pair_rotates :
    insert_tree_node (at_second 3) pair
    ≡ some
        (node (node null (use_node 1 2 0) null) (use_node 2 1 2) (node null (use_node 3 0 1) null))
unfolding insert_tree_node descend climb rotate left_rotate compare_nodes rewind
pair_rotates = refl

row-IsWeighted : IsWeighted row
unfolding IsWeighted flatten
row-IsWeighted = (tt, refl, (tt, refl, (tt, refl, tt)))
