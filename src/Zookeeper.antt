-- ===== src/Zookeeper.antt =====
-- What src/zstore_controller.cc uses of ZooKeeper, as an interface: nodes by their paths, with the data that
-- they hold. A call that is not answered with ZOK is `none`, and leaves the nodes alone.
pub mod Memory
use zstore.Common.{
  ℕ, ◌≡◌, Option, none, some, List, ◌∷◌, ◌++◌, if◌then◌else◌, false, All, get_elem?, ◌==◌,
}
use zstore.Hash.{key_eq as path_eq}

-- `root + "/" + name`
abbrev pub join : List ℕ → List ℕ → List ℕ
join root name = root ++ b'/' ∷ name

-- A name of a node is one step of a path.
abbrev pub IsName : List ℕ → Type 0
IsName name = All (λ c. (c == b'/') ≡ false) name

pub record ZooKeeper : Type 1 where
  pub State : Type 0
  pub data_of : State → List ℕ → Option (List ℕ)
  pub children : State → List ℕ → Option (List (List ℕ))
  pub create : State → List ℕ → List ℕ → Option State
  pub create_sequence : State → List ℕ → List ℕ → Option State
  pub set_data : State → List ℕ → List ℕ → Option State
  pub delete : State → List ℕ → Option State

-- One node holds `o`, and every other what it held.
abbrev pub Changed : (Z : ZooKeeper) → Z.State → List ℕ → Option (List ℕ) → Z.State → Type 0
Changed Z z path o y = (q : List ℕ) → Z.data_of y q ≡ (if path_eq path q then o else Z.data_of z q)

-- zoo_create fails for a path that has a node, zoo_set and zoo_delete for one that has none; a sequence
-- number is appended to a path so that it is new; zoo_get_children lists the nodes below a node,
-- which is there if it has any.
pub record IsZooKeeper (Z : ZooKeeper) : Type 0 where
  pub create_again :
      (z : Z.State) (path d c : List ℕ) → Z.data_of z path ≡ some d → Z.create z path c ≡ none
  pub create_lem :
      (z y : Z.State) (path c : List ℕ) → Z.create z path c ≡ some y → Changed Z z path (some c) y
  pub create_below :
      (z : Z.State) (root name d c : List ℕ)
      → Z.data_of z root ≡ some d
      → Z.data_of z (join root name) ≡ none
      → (y : Z.State) × (Z.create z (join root name) c ≡ some y)
  pub sequence_lem :
      (z y : Z.State) (path c : List ℕ)
      → Z.create_sequence z path c ≡ some y
      → (number : List ℕ) × (Z.data_of z (path ++ number) ≡ none)
        × Changed Z z (path ++ number) (some c) y
  pub set_absent :
      (z : Z.State) (path c : List ℕ) → Z.data_of z path ≡ none → Z.set_data z path c ≡ none
  pub set_lem :
      (z : Z.State) (path d c : List ℕ)
      → Z.data_of z path ≡ some d
      → (y : Z.State) × (Z.set_data z path c ≡ some y) × Changed Z z path (some c) y
  pub delete_lem :
      (z : Z.State) (path d : List ℕ)
      → Z.data_of z path ≡ some d
      → (y : Z.State) × (Z.delete z path ≡ some y) × Changed Z z path none y
  pub delete_absent :
      (z : Z.State) (path : List ℕ) → Z.data_of z path ≡ none → Z.delete z path ≡ none
  pub children_below :
      (z : Z.State) (root name d : List ℕ)
      → Z.data_of z (join root name) ≡ some d
      → (names : List (List ℕ)) × (Z.children z root ≡ some names)
  pub children_all :
      (z : Z.State) (root name d : List ℕ) (names : List (List ℕ))
      → Z.children z root ≡ some names
      → IsName name
      → Z.data_of z (join root name) ≡ some d
      → (i : ℕ) × (get_elem? names i ≡ some name)
  pub children_some :
      (z : Z.State) (root : List ℕ) (names : List (List ℕ))
      → Z.children z root ≡ some names
      → All (λ name. (d : List ℕ) × (Z.data_of z (join root name) ≡ some d)) names
