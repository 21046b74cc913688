-- ===== src/Zookeeper/Memory.antt =====
-- A list of nodes meets what src/zstore_controller.cc relies on of ZooKeeper.
use mathlib.Core.Path.{subst}
use mathlib.Core.List.{append_assoc}
use zstore.Common.{
  ℕ, suc, ◌+◌, ◌<◌, ◌≡◌, refl, ap, sym, ◌∙◌, false, Bool-cases, Option-cases, inl, inr, Option,
  none, some, List, [], ◌∷◌, ◌++◌, if◌then◌else◌, ◌==◌, ==_iff, ==_refl, length, length-append,
  length-replicate, replicate, All, get_elem?, arith,
}
use zstore.Hash.{key_eq as path_eq}
use zstore.Hash.Hex.{key_eq_iff}
use zstore.Store.Map.{find}
use zstore.Store.Map.Assoc.{put, without, find-put, find-without}
use zstore.Zookeeper.{ZooKeeper, IsZooKeeper, Changed, join}

abbrev pub Nodes : Type 0
Nodes = List (List ℕ × List ℕ)

-- What stands behind a prefix.
behind : List ℕ → List ℕ → Option (List ℕ)
behind [] q = some q
behind (c ∷ p) [] = none
behind (c ∷ p) (d ∷ q) = if c == d then behind p q else none

behind-append : (p n : List ℕ) → behind p (p ++ n) ≡ some n
unfolding behind
behind-append [] n = refl
behind-append (c ∷ p) n = rw (==_refl c) (behind-append p n)

behind-some : (p q n : List ℕ) → behind p q ≡ some n → q ≡ p ++ n
unfolding behind
behind-some [] q n h = ground arith
behind-some (c ∷ p) [] n h = absurd (cc)
behind-some (c ∷ p) (d ∷ q) n h = ground (arith, behind-some p q n, ==_iff c d)

add_name : Option (List ℕ) → List (List ℕ) → List (List ℕ)
add_name none names = names
add_name (some n) names = n ∷ names

pub names_behind : List ℕ → Nodes → List (List ℕ)
unfolding behind add_name
names_behind p [] = []
names_behind p ((path, d) ∷ m) = add_name (behind p path) (names_behind p m)

total_length : Nodes → ℕ
total_length [] = 0
total_length ((path, d) ∷ m) = length path + total_length m

path_eq-longer : (p q : List ℕ) → length p < length q → path_eq p q ≡ false
unfolding path_eq
path_eq-longer [] [] h = absurd (omega arith)
path_eq-longer [] (d ∷ q) h = refl
path_eq-longer (c ∷ p) [] h = refl
path_eq-longer (c ∷ p) (d ∷ q) h = ground (arith, path_eq-longer p q)

find-long : (q : List ℕ) (m : Nodes) → total_length m < length q → find q m ≡ none
unfolding find total_length
find-long q [] h = refl
find-long q ((path, d) ∷ m) h =
    rw (path_eq-longer path q (omega arith)) (find-long q m (omega arith))

-- A number that is longer than all paths together.
pub number_of : Nodes → List ℕ
unfolding total_length
number_of m = replicate (suc (total_length m)) b'0'

find-number_of : (p : List ℕ) (m : Nodes) → find (p ++ number_of m) m ≡ none
unfolding number_of
find-number_of p m = find-long (p ++ number_of m) m (
    omega
      (arith, length-append p (number_of m), length-replicate {A = ℕ} (suc (total_length m)) b'0'))

pub when_new : Option (List ℕ) → Nodes → Option Nodes
when_new none m = some m
when_new (some d) old = none

pub when_old : Option (List ℕ) → Nodes → Option Nodes
when_old none m = none
when_old (some d) m = some m

abbrev pub memory : ZooKeeper
memory = record {
  State = Nodes;
  data_of = λ m path. find path m;
  children = λ m root. some (names_behind (root ++ b'/' ∷ []) m);
  create = λ m path c. when_new (find path m) (put path c m).0;
  create_sequence = λ m path c. some (put (path ++ number_of m) c m).0;
  set_data = λ m path c. when_old (find path m) (put path c m).0;
  delete = λ m path. when_old (find path m) (without path m);
}

behind-join : (root n : List ℕ) → behind (root ++ b'/' ∷ []) (join root n) ≡ some n
behind-join root n =
    ap (behind (root ++ b'/' ∷ [])) (sym (append_assoc root (b'/' ∷ []) n))
    ∙ behind-append (root ++ b'/' ∷ []) n

names_behind-all :
    (p q n d : List ℕ) (m : Nodes)
    → behind p q ≡ some n
    → find q m ≡ some d
    → (i : ℕ) × (get_elem? (names_behind p m) i ≡ some n)
unfolding find names_behind
names_behind-all p q n d [] b h = absurd (cc)
names_behind-all p q n d ((path, e) ∷ m) b h = elim (Bool-cases (path_eq path q)) [
  | inl same ↦ (0, rw ((key_eq_iff path q).0 same) (rw (b, add_name) refl))
  | inr ne ↦
      (let (i, there) = names_behind-all p q n d m b (ground arith) in
        elim (Option-cases (behind p path)) [
          | inl e ↦ (i, rw (e, add_name) there)
          | inr (x, e) ↦ (suc i, rw (e, add_name) there)
        ])
]

-- A path that is listed is found.
find-cons :
    (q path e d : List ℕ) (m : Nodes)
    → find q m ≡ some d
    → (x : List ℕ) × (find q ((path, e) ∷ m) ≡ some x)
unfolding find
find-cons q path e d m h = elim (Bool-cases (path_eq path q)) [
  | inl same ↦ (e, rw same refl)
  | inr ne ↦ (d, rw ne h)
]

find-first : (q path e : List ℕ) (m : Nodes) → path ≡ q → find q ((path, e) ∷ m) ≡ some e
unfolding find
find-first q path e m same = rw ((key_eq_iff path q).1 same) refl

abbrev Found : Nodes → List ℕ → List ℕ → Type 0
Found m p n = (d : List ℕ) × (find (p ++ n) m ≡ some d)

All-Found :
    (p path e : List ℕ) (m : Nodes) (names : List (List ℕ))
    → All (Found m p) names
    → All (Found ((path, e) ∷ m) p) names
All-Found p path e m [] all = tt
All-Found p path e m (n ∷ names) ((d, h), all) =
    (find-cons (p ++ n) path e d m h, All-Found p path e m names all)

names_behind-Found : (p : List ℕ) (m : Nodes) → All (Found m p) (names_behind p m)
unfolding names_behind
names_behind-Found p [] = tt
names_behind-Found p ((path, e) ∷ m) = elim (Option-cases (behind p path)) [
  | inl b ↦ rw (b, add_name) (All-Found p path e m (names_behind p m) (names_behind-Found p m))
  | inr (n, b) ↦
      rw (b, add_name)
        (
          (e, find-first (p ++ n) path e m (behind-some p path n b)),
          All-Found p path e m (names_behind p m) (names_behind-Found p m),
        )
]

All-joined :
    (root : List ℕ) (m : Nodes) (names : List (List ℕ))
    → All (Found m (root ++ b'/' ∷ [])) names
    → All (λ name. (d : List ℕ) × (find (join root name) m ≡ some d)) names
All-joined root m [] all = tt
All-joined root m (n ∷ names) ((d, h), all) = (
  (d, ap (λ q. find q m) (sym (append_assoc root (b'/' ∷ []) n)) ∙ h),
  All-joined root m names all,
)

when_new-some : (o : Option (List ℕ)) (m n : Nodes) → when_new o m ≡ some n → m ≡ n
unfolding when_new
when_new-some none m n h = cc
when_new-some (some d) m n h = absurd (cc)

-- A list of nodes does what ZooKeeper is relied on for.
pub memory-IsZooKeeper : IsZooKeeper memory
unfolding when_new when_old
memory-IsZooKeeper = record {
  create_again = λ m path d c h. rw (h, when_new) refl;
  create_lem = λ m n path c h.
      subst (Changed memory m path (some c)) (when_new-some (find path m) (put path c m).0 n h)
        (λ q. find-put path q c m);
  create_below =
      λ m root name d c there absent. ((put (join root name) c m).0, rw (absent, when_new) refl);
  sequence_lem = λ m n path c h. (
    number_of m,
    find-number_of path m,
    subst (Changed memory m (path ++ number_of m) (some c))
        (let e : (put (path ++ number_of m) c m).0 ≡ n = cc in e)
        (λ q. find-put (path ++ number_of m) q c m),
  );
  set_absent = λ m path c h. rw (h, when_old) refl;
  set_lem = λ m path d c h. ((put path c m).0, rw (h, when_old) refl, λ q. find-put path q c m);
  delete_lem = λ m path d h. (without path m, rw (h, when_old) refl, λ q. find-without path q m);
  delete_absent = λ m path h. rw (h, when_old) refl;
  children_below = λ m root name d h. (names_behind (root ++ b'/' ∷ []) m, refl);
  children_all = λ m root name d names listed is_name there.
      subst (λ l. (i : ℕ) × (get_elem? l i ≡ some name))
        (let e : names_behind (root ++ b'/' ∷ []) m ≡ names = cc in e)
        (names_behind-all (root ++ b'/' ∷ []) (join root name) name d m (behind-join root name)
          there);
  children_some = λ m root names listed.
      subst (All (λ name. (d : List ℕ) × (find (join root name) m ≡ some d)))
        (let e : names_behind (root ++ b'/' ∷ []) m ≡ names = cc in e)
        (All-joined root m (names_behind (root ++ b'/' ∷ []) m)
          (names_behind-Found (root ++ b'/' ∷ []) m));
}
