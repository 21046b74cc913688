-- ===== src/Http/Tests.antt =====
-- Tests of the URL parser of src/http_server.cc and of the responses of src/include/boost_utils.h.
use zstore.Common.{ℕ, ◌≡◌, refl, List, [], ◌∷◌, ◌++◌, codes, arith}
use zstore.Http.{parse_url, split_at_slash}
use zstore.Http.Url.{IsSegment, parse_url-append}

abbrev bucket_a : List ℕ
bucket_a = codes "bkt"

abbrev key_a : List ℕ
key_a = codes "a/b"

bucket_a-IsSegment : IsSegment bucket_a
bucket_a-IsSegment = ground arith

parse_plain : parse_url (codes "/bkt/a/b") ≡ (codes "bkt", codes "a/b")
unfolding parse_url split_at_slash
parse_plain = refl

parse_url-append_example :
    (parse_url (b'/' ∷ (bucket_a ++ (b'/' ∷ key_a))) ≡ (bucket_a, key_a))
    × (parse_url (b'/' ∷ bucket_a) ≡ (bucket_a, []))
parse_url-append_example = parse_url-append bucket_a key_a bucket_a-IsSegment

abbrev slash : ℕ
slash = b'/'
