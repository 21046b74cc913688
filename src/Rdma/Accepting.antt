-- ===== src/Rdma/Accepting.antt =====
-- What the server of src/rdma_utils.cc does with the texts that are written to it.
use zstore.Common.{
  ℕ, suc, ◌+◌, ◌-◌, ◌≤◌, ◌<◌, ◌≡◌, refl, ap, ◌∙◌, true, false, some, List, [], ◌∷◌, ◌++◌, map, take,
  drop, length, replicate, All, length-append, length-drop, lt→ltb, le→ltb_false, ◌==◌, ==-zero,
  arith, ok, err, out_of_bounds,
}
use mathlib.Core.Path.{subst}
use mathlib.Core.List.{append_assoc}
use zstore.Rdma.{msg_mr, msg_ready, set_at, c_string, write_front}
use zstore.Rdma.Server.{
  Server, is_named, copy_hash, store_name, on_pre_conn, on_connection, on_completion, deliver,
  deliver_all,
}

-- A text without zeros, and the bytes that strcpy makes of it.
abbrev pub IsText : List ℕ → Type 0
IsText text = All (λ c. (c == 0) ≡ false) text

abbrev pub c_bytes : List ℕ → List ℕ
c_bytes text = text ++ 0 ∷ []

c_string-text : (text rest : List ℕ) → IsText text → c_string (text ++ 0 ∷ rest) ≡ some text
unfolding c_string
c_string-text [] rest all = refl
c_string-text (c ∷ text) rest (h, all) = rw (h) (rw (c_string-text text rest all) refl)

-- The zero behind a text is where it is written.
set_at-length : (text rest : List ℕ) → set_at (length text) 0 (text ++ 0 ∷ rest) ≡ text ++ 0 ∷ rest
unfolding set_at
set_at-length [] rest = refl
set_at-length (c ∷ text) rest = ap (λ t. c ∷ t) (set_at-length text rest)

take-text :
    (text rest : List ℕ) (m : ℕ)
    → take (length text + suc m) (text ++ 0 ∷ rest) ≡ text ++ 0 ∷ take m rest
take-text [] rest m = ap (λ n. take n (0 ∷ rest)) (let e : 0 + suc m ≡ suc m = omega arith in e)
take-text (c ∷ text) rest m =
    ap (λ n. take n (c ∷ (text ++ 0 ∷ rest)))
      (let e : suc (length text) + suc m ≡ suc (length text + suc m) = omega arith in e)
    ∙ ap (λ t. c ∷ t) (take-text text rest m)

length-c_bytes : (text : List ℕ) → length (c_bytes text) ≡ suc (length text)
length-c_bytes text = omega (arith, length-append text (0 ∷ []))

-- The buffer after a text was written to it.
abbrev pub filled_with : List ℕ → List ℕ → List ℕ
filled_with text buffer = text ++ 0 ∷ drop (suc (length text)) buffer

pub write_front-text :
    (text buffer : List ℕ)
    → length text < length buffer
    → write_front (c_bytes text) buffer ≡ ok (filled_with text buffer)
unfolding write_front
write_front-text text buffer h = rw (length-c_bytes text) (
    rw (le→ltb_false (length buffer) (suc (length text)) (omega arith))
      (ap (λ b. ok b) (append_assoc text (0 ∷ []) (drop (suc (length text)) buffer))))

pub length-filled_with :
    (text buffer : List ℕ)
    → length text < length buffer
    → length (filled_with text buffer) ≡ length buffer
length-filled_with text buffer h = omega (
  arith,
  length-append text (0 ∷ drop (suc (length text)) buffer),
  length-drop (suc (length text)) buffer,
)

-- A server that knows the name of the client, has one receive posted, and has answered `n` writes.
pub record IsOpen (name : List ℕ) (size n : ℕ) (σ : Server) : Type 0 where
  pub named : c_string σ.server_name ≡ some name
  pub first : is_named σ.server_name ≡ true
  pub sized : length σ.buffer ≡ size
  pub posted : σ.receives ≡ 1
  pub answered : σ.sent ≡ replicate n msg_ready ++ msg_mr ∷ []

-- The name that is stored: its text, the zero, and what the buffer holds behind.
stored : List ℕ → List ℕ → List ℕ
stored text buffer = text ++ 0 ∷ take (15 - length text) (drop (suc (length text)) buffer)

store_name-text :
    (text buffer : List ℕ) (σ : Server)
    → length text < 16
    → 16 ≤ length buffer
    → store_name (suc (length text)) (record σ { buffer = filled_with text buffer })
      ≡ ok (record σ { buffer = filled_with text buffer; server_name = stored text buffer })
unfolding store_name stored
store_name-text text buffer σ short room =
    let rest = drop (suc (length text)) buffer in
    let cut : take 16 (filled_with text buffer) ≡ stored text buffer =
      ap (λ n. take n (filled_with text buffer))
        (let e : 16 ≡ length text + suc (15 - length text) = omega arith in e)
      ∙ take-text text rest (15 - length text) in
    let size : length (filled_with text buffer) ≡ length buffer =
      length-filled_with text buffer (omega arith) in
    rw (le→ltb_false (length (filled_with text buffer)) 16 (omega (arith, size))) (
      rw (le→ltb_false 16 (suc (length text)) (omega arith)) (
        ap (λ x. ok (record σ { buffer = filled_with text buffer; server_name = x }))
          (ap (set_at (suc (length text) - 1) 0) cut
            ∙ ap (λ i. set_at i 0 (stored text buffer))
                (let e : suc (length text) - 1 ≡ length text = omega arith in e)
            ∙ set_at-length text (take (15 - length text) rest))))

is_named-stored :
    (c : ℕ) (text buffer : List ℕ) → (c == 0) ≡ false → is_named (stored (c ∷ text) buffer) ≡ true
unfolding stored
is_named-stored c text buffer h = rw h refl

is_named-fresh : (raw : List ℕ) → is_named (set_at 0 0 raw) ≡ false
unfolding set_at
is_named-fresh [] = refl
is_named-fresh (b ∷ raw) = refl

module _ (raw buffer : List ℕ) (room : 16 ≤ length buffer) where
  -- The first write gives the server the client's name.
  deliver-name :
      (c : ℕ) (text : List ℕ)
      → IsText (c ∷ text)
      → length (c ∷ text) < 16
      → (τ : Server) × (deliver (c_bytes (c ∷ text)) (on_connection (on_pre_conn raw buffer))
          ≡ ok τ)
        × IsOpen (c ∷ text) (length buffer) 1 τ
  unfolding deliver on_connection on_pre_conn on_completion stored
  deliver-name c text all short =
      let name = c ∷ text in
      let σ0 = on_connection (on_pre_conn raw buffer) in
      let τ : Server = record σ0 {
        buffer = filled_with name buffer;
        server_name = stored name buffer;
        msg = msg_ready;
        sent = msg_ready ∷ msg_mr ∷ [];
      } in
      (
        τ,
        rw (write_front-text name buffer (omega arith)) (
            rw (length-c_bytes name) (
              rw (==-zero (suc (length name)) (omega arith)) (
                rw (is_named-fresh raw) (
                  rw (store_name-text name buffer (record σ0 { receives = 0 }) short room) refl)))),
        record {
          named =
              c_string-text name (take (15 - length name) (drop (suc (length name)) buffer)) all;
          first = is_named-stored c text buffer all.0;
          sized = length-filled_with name buffer (omega arith);
          posted = refl;
          answered = refl;
        },
      )

-- A short text that follows is answered with READY, and changes nothing else that matters.
deliver-IsOpen :
    (name text : List ℕ) (size n : ℕ) (σ : Server)
    → IsOpen name size n σ
    → IsText text
    → length text < 16
    → 16 ≤ size
    → (τ : Server) × (deliver (c_bytes text) σ ≡ ok τ) × IsOpen name size (suc n) τ
unfolding deliver on_completion copy_hash
deliver-IsOpen name text size n σ o all short room =
    let τ : Server = record σ {
      buffer = filled_with text σ.buffer;
      msg = msg_ready;
      sent = msg_ready ∷ σ.sent;
      receives = 1;
    } in
    (
      τ,
      rw o.posted (
          rw (write_front-text text σ.buffer (omega (arith, o.sized))) (
            rw (length-c_bytes text) (
              rw (==-zero (suc (length text)) (omega arith)) (
                rw o.first (
                  rw (c_string-text text (drop (suc (length text)) σ.buffer) all, copy_hash)
                    (rw (lt→ltb (length text) 16 short) refl)))))),
      record {
        named = o.named;
        first = o.first;
        sized = length-filled_with text σ.buffer (omega (arith, o.sized)) ∙ o.sized;
        posted = refl;
        answered = ap (λ l. msg_ready ∷ l) o.answered;
      },
    )

-- A text that fills the 16 bytes of the local array is written past its end.
deliver-long :
    (name text : List ℕ) (size n : ℕ) (σ : Server)
    → IsOpen name size n σ
    → IsText text
    → 16 ≤ length text
    → length text < size
    → deliver (c_bytes text) σ ≡ err out_of_bounds
unfolding deliver on_completion copy_hash
deliver-long name text size n σ o all long room = rw o.posted (
    rw (write_front-text text σ.buffer (omega (arith, o.sized))) (
      rw (length-c_bytes text) (
        rw (==-zero (suc (length text)) (omega arith)) (
          rw o.first (
            rw (c_string-text text (drop (suc (length text)) σ.buffer) all, copy_hash)
              (rw (le→ltb_false (length text) 16 long) refl))))))

abbrev pub IsShort : List ℕ → Type 0
IsShort text = IsText text × (length text < 16)

more-IsOpen :
    (name : List ℕ) (size n : ℕ) (texts : List (List ℕ)) (σ : Server)
    → IsOpen name size n σ
    → All IsShort texts
    → 16 ≤ size
    → (τ : Server) × (deliver_all (map c_bytes texts) σ ≡ ok τ)
      × IsOpen name size (n + length texts) τ
unfolding deliver_all
more-IsOpen name size n [] σ o all room =
    (σ, refl, subst (λ m. IsOpen name size m σ) (omega arith) o)
more-IsOpen name size n (text ∷ texts) σ o ((pure, short), all) room =
    let (τ, came, o') = deliver-IsOpen name text size n σ o pure short room in
    let (υ, rest, o'') = more-IsOpen name size (suc n) texts τ o' all room in
    (
      υ,
      rw came rest,
      subst (λ m. IsOpen name size m υ)
          (let e : suc n + length texts ≡ n + suc (length texts) = omega arith in e) o'',
    )

-- A server whose buffer has at least 16 bytes takes any number of C strings of at most 15 characters, the
-- first of which is not empty: it keeps the first as the client's name, answers each with one READY behind
-- the MR of the connection, and again has one receive posted. A C string of 16 characters or more that
-- fits the buffer and comes then is copied past the end of the local array.
pub deliver_all-IsOpen :
    (raw buffer : List ℕ) (c : ℕ) (text long : List ℕ) (texts : List (List ℕ))
    → 16 ≤ length buffer
    → All IsShort ((c ∷ text) ∷ texts)
    → IsText long
    → 16 ≤ length long
    → length long < length buffer
    → (τ : Server) × (deliver_all
          (map c_bytes ((c ∷ text) ∷ texts))
          (on_connection (on_pre_conn raw buffer))
        ≡ ok τ)
      × IsOpen (c ∷ text) (length buffer) (suc (length texts)) τ
      × (deliver (c_bytes long) τ ≡ err out_of_bounds)
unfolding deliver_all
deliver_all-IsOpen raw buffer c text long texts room ((pure, short), all) pure' more fits =
    let (σ, came, o) = deliver-name raw buffer room c text pure short in
    let (τ, rest, o') = more-IsOpen (c ∷ text) (length buffer) 1 texts σ o all room in
    (
      τ,
      rw came rest,
      subst (λ m. IsOpen (c ∷ text) (length buffer) m τ)
          (let e : 1 + length texts ≡ suc (length texts) = omega arith in e) o',
      deliver-long (c ∷ text) long (length buffer) (1 + length texts) τ o' pure' more fits,
    )
