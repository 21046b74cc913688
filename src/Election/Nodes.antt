-- ===== src/Election/Nodes.antt =====
-- getNodeData and checkTxChange of src/zstore_controller.cc.
use zstore.Common.{
  ℕ, suc, ◌≤◌, ◌<◌, ◌≡◌, ◌≢◌, length-take, refl, ap, min, false, ◌||◌, Bool, Option, none, some,
  List, [], ◌∷◌, take, length, All, ltb, if◌then◌else◌, arith, Bool-cases, ◌⊎◌, inl, inr,
  ltb_false→le, le→ltb_false, take_all, codes,
}
use zstore.Election.{get_node_data, text_eq, tx_loop, check_tx_change}

full_copy :
    (len : ℕ) (content : List ℕ)
    → length content ≤ len
    → take (min len (length content)) content ≡ content
full_copy len content h = take_all content (min len (length content)) (omega arith)

-- A node that fits the buffer is read in one round.
get_node_data-fits :
    (len : ℕ) (content : List ℕ) (rounds : List (Option (List ℕ)))
    → length content ≤ len
    → get_node_data len (some content ∷ rounds) ≡ some content
unfolding get_node_data
get_node_data-fits len content rounds h =
    rw (le→ltb_false (min len (length content)) (length content) (omega arith))
      (ap (λ t. some t) (full_copy len content h))

-- With any buffer, getNodeData is done after two rounds between which the data of the node does not grow,
-- and returns the whole of what the node holds in one of the two.
get_node_data_lem :
    (len : ℕ) (content next : List ℕ) (rounds : List (Option (List ℕ)))
    → length next ≤ length content
    → (get_node_data len (some content ∷ some next ∷ rounds) ≡ some content)
      ⊎ (get_node_data len (some content ∷ some next ∷ rounds) ≡ some next)
unfolding get_node_data
get_node_data_lem len content next rounds h =
    elim (Bool-cases (ltb (min len (length content)) (length content))) [
      | inl e ↦ inr (rw e (get_node_data-fits (length content) next rounds h))
      | inr e ↦
          inl (rw e (ap (λ t. some t) (full_copy len content (omega (arith, ltb_false→le _ _ e)))))
    ]

-- The front of what a node holds says that the node is done with the transaction.
abbrev pub is_done : Option (List ℕ) → Bool
is_done none = false
is_done (some content) =
    text_eq (take 6 content) (codes "commit") || text_eq (take 6 content) (codes "abort_")

abbrev pub done_names : List (List ℕ × Option (List ℕ)) → List (List ℕ)
done_names [] = []
done_names ((name, content) ∷ children) =
    if is_done content then name ∷ done_names children else done_names children

abbrev pub IsLong : Option (List ℕ) → Type 0
IsLong none = Unit
IsLong (some content) = 6 ≤ length content

tx_loop-done_names :
    (children : List (List ℕ × Option (List ℕ)))
    → All (λ x. IsLong x.1) children
    → tx_loop 6 children ≡ done_names children
unfolding tx_loop
tx_loop-done_names [] all = refl
tx_loop-done_names ((name, none) ∷ children) (long, all) = tx_loop-done_names children all
tx_loop-done_names ((name, some content) ∷ children) (long, all) =
    let six : min 6 (length content) ≡ 6 = omega (arith, long) in
    rw six (rw (tx_loop-done_names children all) refl)

text_eq-length : (cs ds : List ℕ) → length cs ≢ length ds → text_eq cs ds ≡ false
unfolding text_eq
text_eq-length [] [] h = absurd (h refl)
text_eq-length [] (d ∷ ds) h = refl
text_eq-length (c ∷ cs) [] h = refl
text_eq-length (c ∷ cs) (d ∷ ds) h = ground (arith, text_eq-length cs ds (λ e. h (ap suc e)))

-- With fewer bytes than are compared nothing is deleted.
tx_loop-short :
    (len : ℕ) (children : List (List ℕ × Option (List ℕ))) → len < 6 → tx_loop len children ≡ []
unfolding tx_loop
tx_loop-short len [] h = refl
tx_loop-short len ((name, none) ∷ children) h = tx_loop-short len children h
tx_loop-short len ((name, some content) ∷ children) h =
    let copied = min len (length content) in
    let size = length-take copied content in
    rw
      (text_eq-length (take copied content) (codes "commit") (λ e. absurd (omega (arith, size, e))))
      (rw
        (text_eq-length (take copied content) (codes "abort_")
          (λ e. absurd (omega (arith, size, e))))
        (tx_loop-short copied children (omega arith)))

-- As long as every node holds at least the 6 bytes that are compared, checkTxChange deletes exactly the
-- nodes that are committed or aborted, and leaves the others. Behind a node that holds fewer bytes, no
-- node is deleted any more.
pub check_tx_change_lem :
    (children rest : List (List ℕ × Option (List ℕ))) (name short : List ℕ)
    → All (λ x. IsLong x.1) children
    → length short < 6
    → (check_tx_change children ≡ done_names children)
      × (check_tx_change ((name, some short) ∷ rest) ≡ [])
unfolding check_tx_change tx_loop
check_tx_change_lem children rest name short all few = (
  tx_loop-done_names children all,
  (let copied = min 6 (length short) in
      let size = length-take copied short in
      rw
        (text_eq-length (take copied short) (codes "commit") (λ e. absurd (omega (arith, size, e))))
        (rw
          (text_eq-length (take copied short) (codes "abort_")
            (λ e. absurd (omega (arith, size, e))))
          (tx_loop-short copied rest (omega arith)))),
)
