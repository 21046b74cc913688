-- ===== src/Gateway/Chunked/Echoed.antt =====
-- What GET of an object larger than a chunk answers in src/http_server.cc.
use zstore.Common.{ℕ, take, le_value, ◌<◌, ◌≡◌, List, length}
use zstore.Conf.{Conf}
use zstore.Device.{Device}
use zstore.Pool.{Pool}
use zstore.Pool.Held.{Held}
use zstore.Gateway.{Gateway}

-- What is documented of a std::string: an object has 32 bytes and starts with a pointer to the text, which
-- is neither 0 nor 1.
pub record IsStringObject (string_object : List ℕ → List ℕ) : Type 0 where
  pub size : (s : List ℕ) → length (string_object s) ≡ 32
  pub pointer : (s : List ℕ) → 1 < le_value (take 8 (string_object s))
