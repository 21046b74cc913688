-- ===== src/Election.antt =====
-- The coordination through ZooKeeper in src/zstore_controller.cc: the choice of the leader in
-- checkChildrenChange, getNodeData and checkTxChange. What zoo_get_children and zoo_get answer is an
-- argument; so is `atoi`, as the sequence numbers that ZooKeeper appends are not negative.
pub mod Agreement
pub mod Nodes
pub mod Tests
use zstore.Common.{
  ℕ, zero, suc, ◌+◌, min, Bool, true, false, ◌||◌, Option, none, some, List, [], ◌∷◌, take, drop,
  get_elem?, length, ltb, ◌==◌, if◌then◌else◌, codes,
}

-- `children.data[i][2]` and what follows: the number behind the prefix `n_`.
pub sequence : (List ℕ → ℕ) → List ℕ → ℕ
sequence atoi name = atoi (drop 2 name)

-- The loop that finds the leader, from child number `i` on. It ends in the index of the leader.
pub leader_loop : (List ℕ → ℕ) → List (List ℕ) → ℕ → ℕ → ℕ → ℕ
unfolding sequence
leader_loop atoi [] i min_seq j = j
leader_loop atoi (name ∷ names) i min_seq j =
    let t = sequence atoi name in
    let changed = leader_loop atoi names (suc i) t i in
    let unchanged = leader_loop atoi names (suc i) min_seq j in
    if (i == 0) || ltb t min_seq then changed else unchanged

-- The child whose data becomes the leader's name. Without children nothing changes.
pub leader : (List ℕ → ℕ) → List (List ℕ) → Option (List ℕ)
unfolding leader_loop
leader atoi children = get_elem? children (leader_loop atoi children 0 0 0)

-- The loop of getNodeData with a buffer of `len` bytes. The list says what the node holds in each round,
-- with `none` where zoo_get fails; the result `none` means that the loop is not done after these rounds.
-- zoo_get copies what fits and sets `len` to the number of bytes.
pub get_node_data : ℕ → List (Option (List ℕ)) → Option (List ℕ)
get_node_data len [] = none
get_node_data len (none ∷ rounds) = some []
get_node_data len (some content ∷ rounds) =
    let copied = min len (length content) in
    let again = get_node_data (length content) rounds in
    if ltb copied (length content) then again else some (take copied content)

unfoldable pub text_eq : List ℕ → List ℕ → Bool
text_eq [] [] = true
text_eq [] (d ∷ ds) = false
text_eq (c ∷ cs) [] = false
text_eq (c ∷ cs) (d ∷ ds) = let rest = text_eq cs ds in if c == d then rest else false

-- The loop of checkTxChange over the children of the transaction node: the children that it deletes.
-- `len` is the buffer's size at first, and then the number of bytes that the last zoo_get set it to.
pub tx_loop : ℕ → List (List ℕ × Option (List ℕ)) → List (List ℕ)
unfolding text_eq
tx_loop len [] = []
tx_loop len ((name, none) ∷ children) = tx_loop len children
tx_loop len ((name, some content) ∷ children) =
    let copied = min len (length content) in
    let input = take copied content in
    let rest = tx_loop copied children in
    if text_eq input (codes "commit") || text_eq input (codes "abort_") then name ∷ rest else rest

pub check_tx_change : List (List ℕ × Option (List ℕ)) → List (List ℕ)
unfolding tx_loop
check_tx_change children = tx_loop 6 children
