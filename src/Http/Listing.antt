-- ===== src/Http/Listing.antt =====
-- create_s3_list_objects_response of src/http_server.cc: the tree of elements that tinyxml2 is asked to
-- build. Text is the list of its character codes.
use zstore.Common.{
  ℕ, zero, suc, ◌+◌, ◌/◌, ◌%◌, ◌==◌, ◌≡◌, refl, ap, List, [], ◌∷◌, map, if◌then◌else◌, codes,
}
use zstore.Hash.{KeyHash, hash_to_c_string}

mutual
  pub data Element : Type 0 where
    element : List ℕ → List (List ℕ × List ℕ) → List ℕ → Elements → Element

  pub data Elements : Type 0 where
    last : Elements
    child : Element → Elements → Elements

-- `std::to_string`, digit by digit from the end; a number has fewer digits than its value and one.
decimal : ℕ → ℕ → List ℕ → List ℕ
decimal zero n digits = digits
decimal (suc fuel) n digits =
    let more = (b'0' + n % 10) ∷ digits in
    let rest = decimal fuel (n / 10) more in if n / 10 == 0 then more else rest

pub to_string : ℕ → List ℕ
unfolding decimal
to_string n = decimal (suc n) n []

-- An element with a text and nothing else.
abbrev leaf : List ℕ → List ℕ → Element
leaf name text = element name [] text last

contents : KeyHash → Element
unfolding to_string
contents hash = element (codes "Contents") [] [] (
    child (leaf (codes "Key") (hash_to_c_string hash)) (
      child (leaf (codes "LastModified") (codes "2024-01-10T15:30:00.000Z")) (
        child (leaf (codes "ETag") (codes "\"9b2cf535f27731c974343645a3985328\"")) (
          child (leaf (codes "Size") (to_string 123456))
            (child (leaf (codes "StorageClass") (codes "STANDARD")) last)))))

contents_of : List KeyHash → Elements
unfolding contents
contents_of [] = last
contents_of (hash ∷ hashes) = child (contents hash) (contents_of hashes)

pub create_s3_list_objects_response : List ℕ → ℕ → List KeyHash → Element
unfolding contents_of to_string
create_s3_list_objects_response bucket_name max_keys hashes =
    element (codes "ListBucketResult")
      ((codes "xmlns", codes "http://s3.amazonaws.com/doc/2006-03-01/") ∷ []) []
      (child (leaf (codes "Name") bucket_name) (
        child (leaf (codes "Prefix") []) (
          child (leaf (codes "Marker") []) (
            child (leaf (codes "MaxKeys") (to_string max_keys))
              (child (leaf (codes "IsTruncated") (codes "false")) (contents_of hashes))))))

-- The name of an element, and what is in it.
abbrev name_of : Element → List ℕ
name_of (element name attributes text children) = name

abbrev text_of : Element → List ℕ
text_of (element name attributes text children) = text

abbrev pub children_of : Element → Elements
children_of (element name attributes text children) = children

first_key : Elements → List ℕ
first_key last = []
first_key (child e es) = text_of e

abbrev pub skip : ℕ → Elements → Elements
skip zero es = es
skip (suc n) last = last
skip (suc n) (child e es) = skip n es

-- The text of the first child of each.
pub keys_in : Elements → List (List ℕ)
unfolding first_key
keys_in last = []
keys_in (child e es) = first_key (children_of e) ∷ keys_in es

keys_in-contents_of :
    (hashes : List KeyHash) → keys_in (contents_of hashes) ≡ map hash_to_c_string hashes
unfolding keys_in contents_of contents first_key
keys_in-contents_of [] = refl
keys_in-contents_of (hash ∷ hashes) =
    ap (λ t. hash_to_c_string hash ∷ t) (keys_in-contents_of hashes)

-- Behind its five elements about the bucket, a listing has the texts of the hashes, in order.
pub keys_in-create_s3_list_objects_response :
    (bucket_name : List ℕ) (max_keys : ℕ) (hashes : List KeyHash)
    → keys_in (skip 5 (children_of (create_s3_list_objects_response bucket_name max_keys hashes)))
      ≡ map hash_to_c_string hashes
unfolding create_s3_list_objects_response
keys_in-create_s3_list_objects_response bucket_name max_keys hashes = keys_in-contents_of hashes
