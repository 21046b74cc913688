-- ===== src/Http/Url.antt =====
-- How parse_url of src/http_server.cc splits a target.
use zstore.Common.{
  ℕ, ◌≡◌, ◌≢◌, refl, ap, ◌⊎◌, inl, inr, none, some, List, [], ◌∷◌, ◌++◌, ◌==◌, All, Bool-cases,
  ==_iff, ==_ne, arith,
}
use zstore.Http.{split_at_slash, parse_url}

-- A text without a slash.
abbrev pub IsSegment : List ℕ → Type 0
IsSegment b = All (λ c. c ≢ b'/') b

split_at_slash-segment : (b : List ℕ) → IsSegment b → split_at_slash b ≡ none
unfolding split_at_slash
split_at_slash-segment [] h = refl
split_at_slash-segment (c ∷ b) h = rw (==_ne c b'/' h.0, split_at_slash-segment b h.1) refl

split_at_slash-append :
    (b k : List ℕ) → IsSegment b → split_at_slash (b ++ (b'/' ∷ k)) ≡ some (b, k)
unfolding split_at_slash
split_at_slash-append [] k h = refl
split_at_slash-append (c ∷ b) k h = rw (==_ne c b'/' h.0, split_at_slash-append b k h.1) refl

split_at_slash-cases :
    (s : List ℕ) → IsSegment s ⊎ ((b : List ℕ) × (k : List ℕ) × IsSegment b × (s ≡ b ++ (b'/' ∷ k)))
split_at_slash-cases [] = inl tt
split_at_slash-cases (c ∷ s) = elim (Bool-cases (c == b'/')) [
  | inl e ↦ inr ([], s, tt, ap (λ x. x ∷ s) ((==_iff c b'/').0 e))
  | inr e ↦ elim (split_at_slash-cases s) [
    | inl h ↦ inl (ground arith, h)
    | inr (b, k, h, f) ↦ inr (c ∷ b, k, (ground arith, h), ap (λ t. c ∷ t) f)
  ]
]

-- A target of a bucket and a key, each behind a slash, is taken apart into the two, where the bucket has
-- no slash and the key is any text; a target of a bucket alone has the empty key.
pub parse_url-append :
    (bucket key : List ℕ)
    → IsSegment bucket
    → (parse_url (b'/' ∷ (bucket ++ (b'/' ∷ key))) ≡ (bucket, key))
      × (parse_url (b'/' ∷ bucket) ≡ (bucket, []))
unfolding parse_url
parse_url-append bucket key h =
    (rw (split_at_slash-append bucket key h) refl, rw (split_at_slash-segment bucket h) refl)

-- Every target that starts with a slash is one of the two kinds: the bucket has no slash and,
-- with the key, it gives the target back. Every other target has an empty bucket and an empty key.
parse_url_total :
    (c : ℕ) (s : List ℕ)
    → (c ≢ b'/' → parse_url (c ∷ s) ≡ ([], []))
      × (c ≡ b'/'
          → (bucket : List ℕ) × (key : List ℕ) × (parse_url (c ∷ s) ≡ (bucket, key))
            × IsSegment bucket
            × ((s ≡ bucket ++ (b'/' ∷ key)) ⊎ ((s ≡ bucket) × (key ≡ []))))
unfolding parse_url
parse_url_total c s = (
  λ ne. rw (==_ne c b'/' ne) refl,
  λ e. elim (split_at_slash-cases s) [
    | inl h ↦ (
      s,
      [],
      (rw ((==_iff c b'/').1 e) (rw (split_at_slash-segment s h) refl)),
      h,
      inr (refl, refl),
    )
    | inr (b, k, h, f) ↦
        (b, k, (rw ((==_iff c b'/').1 e) (rw f (rw (split_at_slash-append b k h) refl))), h, inl f)
  ],
)
