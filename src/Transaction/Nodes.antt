-- ===== src/Transaction/Nodes.antt =====
-- What each step of src/zstore_controller.cc does to the nodes under the root of the transactions.
use mathlib.Core.Path.{subst}
use zstore.Common.{
  ℕ, zero, suc, ◌≤◌, ◌≡◌, ◌⊎◌, refl, sym, ap, ◌∙◌, Bool, true, false, ◌||◌, Bool-cases,
  Option-cases, inl, inr, Option, none, some, List, [], ◌∷◌, if◌then◌else◌, length, take, codes,
  arith, get_elem?, All,
}
use zstore.Hash.{key_eq as path_eq}
use zstore.Hash.Hex.{key_eq_iff}
use zstore.Election.{check_tx_change}
use zstore.Election.Nodes.{done_names, is_done, IsLong, check_tx_change_lem}
use zstore.Zookeeper.{ZooKeeper, IsZooKeeper, IsName, join}
use zstore.Transaction.{
  tx_root, election_root, Member, is_absent, attempt, ten_bytes, zk_set, create_root, enlist,
  create_znodes, delete_all, node_contents, delete_done, check_tx,
}

pub or_false : (b : Bool) → (b || false) ≡ b
or_false true = refl
or_false false = refl

some-injective : {a b : List ℕ} → some a ≡ some b → a ≡ b
some-injective h = cc

pub path_eq-join : (m n : List ℕ) → path_eq (join tx_root m) (join tx_root n) ≡ path_eq m n
unfolding path_eq
path_eq-join m n = refl

module _ (Z : ZooKeeper) (law : IsZooKeeper Z) where
  open Z use {State, data_of, children, create, create_sequence, set_data, delete}

  -- The data of a transaction's node.
  abbrev pub tx_data : State → List ℕ → Option (List ℕ)
  tx_data z n = data_of z (join tx_root n)

  -- A node that is made elsewhere.
  attempt-elsewhere :
      (path c : List ℕ) (z : State) (n : List ℕ)
      → path_eq path (join tx_root n) ≡ false
      → tx_data (attempt (create z path c) z) n ≡ tx_data z n
  attempt-elsewhere path c z n other = elim (Option-cases (create z path c)) [
    | inl e ↦ rw (e) refl
    | inr (y, e) ↦ rw e (law.create_lem z y path c e (join tx_root n) ∙ rw other refl)
  ]

  create_root-tx :
      (root text : List ℕ) (z : State) (n : List ℕ)
      → path_eq root (join tx_root n) ≡ false
      → tx_data (create_root Z root text z) n ≡ tx_data z n
  unfolding create_root
  create_root-tx root text z n other = elim (Bool-cases (is_absent (data_of z root))) [
    | inl e ↦ rw e (attempt-elsewhere root (take 10 text) z n other)
    | inr e ↦ rw e refl
  ]

  enlist-tx : (name : List ℕ) (z : State) (n : List ℕ) → tx_data (enlist Z name z) n ≡ tx_data z n
  unfolding enlist path_eq
  enlist-tx [] z n = refl
  enlist-tx (c ∷ cs) z n =
      elim (Option-cases (create_sequence z (join election_root (codes "n_")) (c ∷ cs))) [
        | inl e ↦ rw e refl
        | inr (y, e) ↦
            (let (number, fresh, changed) =
                law.sequence_lem z y (join election_root (codes "n_")) (c ∷ cs) e in
              rw e (changed (join tx_root n)))
      ]

  -- createZnodes leaves the transactions alone.
  pub create_znodes-tx :
      (atoi : List ℕ → ℕ) (g : Member) (z : State) (n : List ℕ)
      → tx_data (create_znodes Z atoi g z).0 n ≡ tx_data z n
  unfolding create_znodes path_eq
  create_znodes-tx atoi g z n =
      let z1 = create_root Z election_root (codes "leader election") z in
      let z2 = create_root Z tx_root (codes "transaction") z1 in
      enlist-tx g.node_name z2 n
      ∙ create_root-tx tx_root (codes "transaction") z1 n refl
      ∙ create_root-tx election_root (codes "leader election") z n refl

  -- ZkSet changes the node that it names, if it is there.
  pub zk_set-tx :
      (beyond : List ℕ) (m : List ℕ) (z : State) (n : List ℕ)
      → tx_data (zk_set Z beyond (join tx_root m) (codes "commit") z) n ≡ (
          if path_eq m n
          then (if is_absent (tx_data z n) then none else some (ten_bytes beyond (codes "commit")))
          else tx_data z n)
  unfolding zk_set
  zk_set-tx beyond m z n = elim (Option-cases (tx_data z m)) [
    | inl e ↦
        rw (law.set_absent z (join tx_root m) (ten_bytes beyond (codes "commit")) e)
          (elim (Bool-cases (path_eq m n)) [
            | inl same ↦
                (let gone : tx_data z n ≡ none =
                    ap (tx_data z) (sym ((key_eq_iff m n).0 same)) ∙ e in
                  rw same (rw gone refl))
            | inr ne ↦ rw ne refl
          ])
    | inr (d, e) ↦
        (let (y, done, changed) =
            law.set_lem z (join tx_root m) d (ten_bytes beyond (codes "commit")) e in
          rw done (
            changed (join tx_root n)
            ∙ rw (path_eq-join m n) (elim (Bool-cases (path_eq m n)) [
              | inl same ↦
                  (let there : tx_data z n ≡ some d =
                      ap (tx_data z) (sym ((key_eq_iff m n).0 same)) ∙ e in
                    rw same (rw there refl))
              | inr ne ↦ rw ne refl
            ])))
  ]

  delete-tx :
      (m : List ℕ) (z : State) (n : List ℕ)
      → tx_data (attempt (delete z (join tx_root m)) z) n
        ≡ (if path_eq m n then none else tx_data z n)
  delete-tx m z n = elim (Option-cases (tx_data z m)) [
    | inl e ↦ rw (law.delete_absent z (join tx_root m) e) (elim (Bool-cases (path_eq m n)) [
      | inl same ↦ rw same (ap (tx_data z) (sym ((key_eq_iff m n).0 same)) ∙ e)
      | inr ne ↦ rw ne refl
    ])
    | inr (d, e) ↦
        (let (y, done, changed) = law.delete_lem z (join tx_root m) d e in
          rw done (changed (join tx_root n) ∙ rw (path_eq-join m n) refl))
  ]

  -- A node is gone if its name is among those that are deleted; otherwise it keeps its data.
  delete_all-gone :
      (names : List (List ℕ)) (z : State) (n : List ℕ)
      → tx_data z n ≡ none
      → tx_data (delete_all Z names z) n ≡ none
  unfolding delete_all
  delete_all-gone [] z n h = h
  delete_all-gone (m ∷ names) z n h =
      delete_all-gone names (attempt (delete z (join tx_root m)) z) n (
        delete-tx m z n
        ∙ (elim (Bool-cases (path_eq m n)) [ inl same ↦ rw same refl | inr ne ↦ rw ne h ]))

  delete_all-mem :
      (names : List (List ℕ)) (z : State) (n : List ℕ) (i : ℕ)
      → get_elem? names i ≡ some n
      → tx_data (delete_all Z names z) n ≡ none
  unfolding delete_all
  delete_all-mem [] z n i h = absurd (cc)
  delete_all-mem (m ∷ names) z n zero h =
      delete_all-gone names (attempt (delete z (join tx_root m)) z) n
        (delete-tx m z n ∙ rw ((key_eq_iff m n).1 (cc)) refl)
  delete_all-mem (m ∷ names) z n (suc i) h =
      delete_all-mem names (attempt (delete z (join tx_root m)) z) n i h

  delete_all-keeps :
      (names : List (List ℕ)) (z : State) (n : List ℕ)
      → All (λ m. path_eq m n ≡ false) names
      → tx_data (delete_all Z names z) n ≡ tx_data z n
  unfolding delete_all
  delete_all-keeps [] z n all = refl
  delete_all-keeps (m ∷ names) z n (ne, all) =
      delete_all-keeps names (attempt (delete z (join tx_root m)) z) n all
      ∙ delete-tx m z n
      ∙ rw ne refl

  delete_all-cases :
      (names : List (List ℕ)) (z : State) (n : List ℕ)
      → (tx_data (delete_all Z names z) n ≡ none) ⊎ (tx_data (delete_all Z names z) n ≡ tx_data z n)
  unfolding delete_all
  delete_all-cases [] z n = inr refl
  delete_all-cases (m ∷ names) z n = elim (Bool-cases (path_eq m n)) [
    | inl same ↦ inl (
        delete_all-gone names (attempt (delete z (join tx_root m)) z) n
          (delete-tx m z n ∙ rw same refl))
    | inr ne ↦ elim (delete_all-cases names (attempt (delete z (join tx_root m)) z) n) [
      | inl gone ↦ inl gone
      | inr kept ↦ inr (kept ∙ delete-tx m z n ∙ rw ne refl)
    ]
  ]

  -- The names that are done, among the children.
  done-mem :
      (names : List (List ℕ)) (z : State) (n : List ℕ) (i : ℕ)
      → get_elem? names i ≡ some n
      → is_done (tx_data z n) ≡ true
      → (j : ℕ) × (get_elem? (done_names (node_contents Z z names)) j ≡ some n)
  unfolding node_contents
  done-mem [] z n i h done = absurd (cc)
  done-mem (m ∷ names) z n zero h done = (0, rw (let same : m ≡ n = cc in same) (rw done refl))
  done-mem (m ∷ names) z n (suc i) h done =
      let (j, there) = done-mem names z n i h done in
      elim (Bool-cases (is_done (tx_data z m))) [
        | inl e ↦ (suc j, rw e there)
        | inr e ↦ (j, rw e there)
      ]

  done-other :
      (names : List (List ℕ)) (z : State) (n : List ℕ)
      → is_done (tx_data z n) ≡ false
      → All (λ m. path_eq m n ≡ false) (done_names (node_contents Z z names))
  unfolding node_contents
  done-other [] z n h = tt
  done-other (m ∷ names) z n h = elim (Bool-cases (is_done (tx_data z m))) [
    | inl e ↦ rw e (
      elim (Bool-cases (path_eq m n)) [
        | inl same ↦ absurd (cc (ap (λ x. is_done (tx_data z x)) ((key_eq_iff m n).0 same)))
        | inr ne ↦ ne
      ],
      done-other names z n h,
    )
    | inr e ↦ rw e (done-other names z n h)
  ]

  -- Every node of a transaction holds at least the 6 bytes that checkTxChange compares.
  abbrev pub AreLong : State → Type 0
  AreLong z = (n d : List ℕ) → tx_data z n ≡ some d → 6 ≤ length d

  node_contents-IsLong :
      (names : List (List ℕ)) (z : State)
      → AreLong z
      → All (λ x. IsLong x.1) (node_contents Z z names)
  unfolding node_contents
  node_contents-IsLong [] z long = tt
  node_contents-IsLong (m ∷ names) z long = elim (Option-cases (tx_data z m)) [
    | inl e ↦ (subst IsLong (sym e) tt, node_contents-IsLong names z long)
    | inr (d, e) ↦ (subst IsLong (sym e) (long m d e), node_contents-IsLong names z long)
  ]

  -- checkTxChange deletes the nodes that are done, and no others.
  pub check_tx-tx :
      (z : State) (n : List ℕ)
      → IsName n
      → AreLong z
      → tx_data (check_tx Z z) n ≡ (if is_done (tx_data z n) then none else tx_data z n)
  unfolding check_tx delete_done
  check_tx-tx z n is_name long = elim (Option-cases (tx_data z n)) [
    | inl gone ↦ elim (Option-cases (children z tx_root)) [
      | inl e ↦ rw (e, delete_done) (rw gone refl)
      | inr (names, e) ↦
          rw (e, delete_done)
            (delete_all-gone (check_tx_change (node_contents Z z names)) z n gone ∙ rw gone refl)
    ]
    | inr (d, there) ↦
        (let (names, e) = law.children_below z tx_root n d there in
          let (i, listed) = law.children_all z tx_root n d names e is_name there in
          let dones : check_tx_change (node_contents Z z names)
              ≡ done_names (node_contents Z z names) =
            (check_tx_change_lem (node_contents Z z names) [] [] []
              (node_contents-IsLong names z long) (omega arith)).0 in
          rw (e, delete_done)
            (rw dones (elim (Bool-cases (is_done (tx_data z n))) [
              | inl done ↦
                  (let (j, found) = done-mem names z n i listed done in
                    delete_all-mem (done_names (node_contents Z z names)) z n j found
                    ∙ rw done refl)
              | inr other ↦
                  delete_all-keeps (done_names (node_contents Z z names)) z n
                    (done-other names z n other)
                  ∙ rw other refl
            ])))
  ]

  -- Deletions leave long nodes.
  pub check_tx-AreLong : (z : State) → AreLong z → AreLong (check_tx Z z)
  unfolding check_tx delete_done
  check_tx-AreLong z long n d h = elim (Option-cases (children z tx_root)) [
    | inl e ↦ long n d (sym (rw (e, delete_done) refl) ∙ h)
    | inr (names, e) ↦
        (let same : tx_data (delete_done Z (children z tx_root) z) n
              ≡ tx_data (delete_all Z (check_tx_change (node_contents Z z names)) z) n =
            rw (e, delete_done) refl in
          elim (delete_all-cases (check_tx_change (node_contents Z z names)) z n) [
            | inl gone ↦ absurd (cc)
            | inr kept ↦ long n d (sym kept ∙ sym same ∙ h)
          ])
  ]

  -- Long nodes stay long where some of them are committed.
  pub committed-AreLong :
      (beyond : List ℕ) (b : List ℕ → Bool) (z y : State)
      → ((n : List ℕ)
          → tx_data y n ≡ (
              if b n
              then (if is_absent (tx_data z n)
                  then none
                  else some (ten_bytes beyond (codes "commit")))
              else tx_data z n))
      → AreLong z
      → AreLong y
  unfolding ten_bytes
  committed-AreLong beyond b z y change long n d h = elim (Bool-cases (b n)) [
    | inl same ↦ elim (Option-cases (tx_data z n)) [
      | inl e ↦ (let gone : tx_data y n ≡ none = change n ∙ rw same (rw e refl) in absurd (cc))
      | inr (c, e) ↦
          (let there : tx_data y n ≡ some (ten_bytes beyond (codes "commit")) =
              change n ∙ rw same (rw e refl) in
            subst (λ x. 6 ≤ length x) (some-injective (sym there ∙ h)) (omega arith))
    ]
    | inr ne ↦
        (let kept : tx_data y n ≡ tx_data z n = change n ∙ rw ne refl in long n d (sym kept ∙ h))
  ]
