-- ===== src/Transaction/Prepared.antt =====
-- What the leader prepares at the start of Checkpoint in src/zstore_controller.cc.
use zstore.Common.{
  ℕ, ◌≡◌, refl, sym, ap, ◌∙◌, Bool, true, false, ◌||◌, ◌&&◌, not, Bool-cases, Option-cases, inl,
  inr, Option, none, some, List, [], ◌∷◌, map, if◌then◌else◌, codes,
}
use zstore.Hash.{key_eq as path_eq}
use zstore.Hash.Hex.{key_eq_iff}
use zstore.Zookeeper.{ZooKeeper, IsZooKeeper, join}
use zstore.Transaction.{tx_root, election_root, is_absent, node_data, prepare, prepare_loop}
use zstore.Transaction.Nodes.{path_eq-join, tx_data}

abbrev pub is_listed : List ℕ → List (List ℕ) → Bool
is_listed n [] = false
is_listed n (m ∷ names) = path_eq m n || is_listed n names

-- The data of a node after it was made unless it was there.
abbrev pub made : Option (List ℕ) → Option (List ℕ)
made none = some (codes "empty_")
made (some d) = some d

made-made : (o : Option (List ℕ)) → made (made o) ≡ made o
made-made none = refl
made-made (some d) = refl

made-twice :
    (p l : Bool) (o : Option (List ℕ))
    → (if l then made (if p then made o else o) else (if p then made o else o))
      ≡ (if p || l then made o else o)
made-twice true true o = made-made o
made-twice true false o = refl
made-twice false l o = refl

watched-twice :
    (p l t w : Bool) (o : Option (List ℕ))
    → ((l && (is_absent (if p then made o else o) && t)) || ((p && (is_absent o && t)) || w))
      ≡ (((p || l) && (is_absent o && t)) || w)
watched-twice true true t w none = refl
watched-twice true false t w none = refl
watched-twice true true t w (some d) = refl
watched-twice true false t w (some d) = refl
watched-twice false l t w o = refl

listed-watched :
    (node n leader_name : List ℕ) (watched : List (List ℕ)) (o : Option (List ℕ))
    → (path_eq node n ≡ true → o ≡ none)
    → is_listed n (if path_eq node leader_name then watched else node ∷ watched)
      ≡ ((path_eq node n && (is_absent o && not (path_eq n leader_name))) || is_listed n watched)
listed-watched node n leader_name watched o absent = elim (Bool-cases (path_eq node n)) [
  | inl same ↦
      (let to_n : path_eq node leader_name ≡ path_eq n leader_name =
          ap (λ x. path_eq x leader_name) ((key_eq_iff node n).0 same) in
        rw to_n (
          rw (absent same) (
            rw same (elim (Bool-cases (path_eq n leader_name)) [
              | inl e ↦ rw e refl
              | inr e ↦ rw e (rw same refl)
            ]))))
  | inr ne ↦ rw ne (elim (Bool-cases (path_eq node leader_name)) [
    | inl e ↦ rw e refl
    | inr e ↦ rw e (rw ne refl)
  ])
]

module _ (Z : ZooKeeper) (law : IsZooKeeper Z) (leader_name : List ℕ) where
  open Z use {State, data_of}

  -- The names that the gateways have in the election.
  abbrev pub gateways : State → List (List ℕ) → List (List ℕ)
  gateways z names = map (λ child. node_data Z z (join election_root child)) names

  -- What one child of the election changes.
  record IsPrepared (z : State) (watched : List (List ℕ)) (node : List ℕ) (y : State)
      (watched' : List (List ℕ)) : Type 0 where
    root_kept : data_of y tx_root ≡ data_of z tx_root
    election_kept :
        (c : List ℕ) → data_of y (join election_root c) ≡ data_of z (join election_root c)
    node_made :
        (n : List ℕ)
        → tx_data Z law y n
          ≡ (if path_eq node n then made (tx_data Z law z n) else tx_data Z law z n)
    now_watched :
        (n : List ℕ)
        → is_listed n watched' ≡ (
            (path_eq node n && (is_absent (tx_data Z law z n) && not (path_eq n leader_name)))
            || is_listed n watched)

  made-absent :
      (node n : List ℕ) (z : State)
      → tx_data Z law z node ≡ none
      → (if path_eq node n then some (codes "empty_") else tx_data Z law z n)
        ≡ (if path_eq node n then made (tx_data Z law z n) else tx_data Z law z n)
  made-absent node n z absent = elim (Bool-cases (path_eq node n)) [
    | inl same ↦
        (let gone : tx_data Z law z n ≡ none =
            ap (tx_data Z law z) (sym ((key_eq_iff node n).0 same)) ∙ absent in
          rw same (rw gone refl))
    | inr ne ↦ rw ne refl
  ]

  made-there :
      (node n : List ℕ) (z : State) (c : List ℕ)
      → tx_data Z law z node ≡ some c
      → tx_data Z law z n ≡ (if path_eq node n then made (tx_data Z law z n) else tx_data Z law z n)
  made-there node n z c there = elim (Bool-cases (path_eq node n)) [
    | inl same ↦
        (let here : tx_data Z law z n ≡ some c =
            ap (tx_data Z law z) (sym ((key_eq_iff node n).0 same)) ∙ there in
          rw same (rw here refl))
    | inr ne ↦ rw ne refl
  ]

  listed-there :
      (node n : List ℕ) (z : State) (watched : List (List ℕ)) (c : List ℕ)
      → tx_data Z law z node ≡ some c
      → is_listed n watched ≡ (
          (path_eq node n && (is_absent (tx_data Z law z n) && not (path_eq n leader_name)))
          || is_listed n watched)
  listed-there node n z watched c there = elim (Bool-cases (path_eq node n)) [
    | inl same ↦
        (let here : tx_data Z law z n ≡ some c =
            ap (tx_data Z law z) (sym ((key_eq_iff node n).0 same)) ∙ there in
          rw same (rw here refl))
    | inr ne ↦ rw ne refl
  ]

  prepare-IsPrepared :
      (child : List ℕ) (z : State) (watched : List (List ℕ)) (d : List ℕ)
      → data_of z tx_root ≡ some d
      → IsPrepared z watched
          (node_data Z z (join election_root child))
          (prepare Z leader_name child (z, watched)).0
          (prepare Z leader_name child (z, watched)).1
  unfolding prepare path_eq
  prepare-IsPrepared child z watched d root =
      let node = node_data Z z (join election_root child) in
      elim (Option-cases (tx_data Z law z node)) [
        | inl absent ↦
            (let (y, done) = law.create_below z tx_root node d (codes "empty_") root absent in
              let change = law.create_lem z y (join tx_root node) (codes "empty_") done in
              rw absent (
                rw done (record {
                  root_kept = change tx_root;
                  election_kept = λ c. change (join election_root c);
                  node_made = λ n.
                      change (join tx_root n)
                      ∙ rw (path_eq-join node n) (made-absent node n z absent);
                  now_watched = λ n.
                      listed-watched node n leader_name watched (tx_data Z law z n)
                        (λ same. ap (tx_data Z law z) (sym ((key_eq_iff node n).0 same)) ∙ absent);
                })))
        | inr (c, there) ↦ rw there (record {
          root_kept = refl;
          election_kept = λ c. refl;
          node_made = λ n. made-there node n z c there;
          now_watched = λ n. listed-there node n z watched c there;
        })
      ]

  gateways-kept :
      (z y : State) (names : List (List ℕ))
      → ((c : List ℕ) → data_of y (join election_root c) ≡ data_of z (join election_root c))
      → gateways y names ≡ gateways z names
  unfolding node_data
  gateways-kept z y [] kept = refl
  gateways-kept z y (c ∷ names) kept =
      rw (kept c)
        (ap (λ l. node_data Z z (join election_root c) ∷ l) (gateways-kept z y names kept))

  loop :
      (names : List (List ℕ)) (z : State) (watched : List (List ℕ)) (d n : List ℕ)
      → data_of z tx_root ≡ some d
      → (tx_data Z law (prepare_loop Z leader_name names (z, watched)).0 n ≡ (
          if is_listed n (gateways z names) then made (tx_data Z law z n) else tx_data Z law z n))
        × (is_listed n (prepare_loop Z leader_name names (z, watched)).1 ≡ (
            (is_listed n (gateways z names)
              && (is_absent (tx_data Z law z n) && not (path_eq n leader_name)))
            || is_listed n watched))
  unfolding prepare_loop
  loop [] z watched d n root = (refl, refl)
  loop (child ∷ names) z watched d n root =
      let y = (prepare Z leader_name child (z, watched)).0 in
      let watched' = (prepare Z leader_name child (z, watched)).1 in
      let node = node_data Z z (join election_root child) in
      let first : IsPrepared z watched node y watched' =
        prepare-IsPrepared child z watched d root in
      let (data_eq, watch_eq) = loop names y watched' d n (first.root_kept ∙ root) in
      let same = gateways-kept z y names first.election_kept in
      (
        data_eq
            ∙ rw same (
                rw (first.node_made n) (
                  made-twice (path_eq node n) (is_listed n (gateways z names))
                    (tx_data Z law z n))),
        watch_eq
            ∙ rw same (
                rw (first.now_watched n) (
                  rw (first.node_made n) (
                    watched-twice (path_eq node n) (is_listed n (gateways z names))
                      (not (path_eq n leader_name)) (is_listed n watched) (tx_data Z law z n)))),
      )

-- If the root of the transactions is there, the leader's loop makes a node for every gateway that has none,
-- whatever the order of the children and however often a gateway is among them. A node that is there
-- already keeps its data, also a commit of an earlier transaction, and no other node of a transaction
-- changes. Besides those that it watched before, the leader then watches exactly the nodes that it made,
-- but for its own.
pub prepare_loop_lem :
    (Z : ZooKeeper) (law : IsZooKeeper Z) (leader_name : List ℕ) (names watched : List (List ℕ))
    (z : Z.State) (d n : List ℕ)
    → Z.data_of z tx_root ≡ some d
    → (tx_data Z law (prepare_loop Z leader_name names (z, watched)).0 n ≡ (
        if is_listed n (gateways Z law leader_name z names)
        then made (tx_data Z law z n)
        else tx_data Z law z n))
      × (is_listed n (prepare_loop Z leader_name names (z, watched)).1 ≡ (
          (is_listed n (gateways Z law leader_name z names)
            && (is_absent (tx_data Z law z n) && not (path_eq n leader_name)))
          || is_listed n watched))
prepare_loop_lem Z law leader_name names watched z d n root =
    loop Z law leader_name names z watched d n root
