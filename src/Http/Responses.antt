-- ===== src/Http/Responses.antt =====
-- What the responses of src/include/boost_utils.h have in common.
use zstore.Common.{◌≡◌, ◌≢◌, ◌↔◌, arith}
use zstore.Http.{get, other, HttpRequest, status_ok, handle_request}

-- A request is answered with its own version and keep-alive flag, the status OK exactly if its verb is known,
-- and, for GET, its own body, which is where the object is put.
handle_request_lem :
    (req : HttpRequest)
    → ((handle_request req).version ≡ req.version)
      × ((handle_request req).keep_alive ≡ req.keep_alive)
      × (((handle_request req).status ≡ status_ok) ↔ (req.method ≢ other))
      × (req.method ≡ get → (handle_request req).body ≡ req.body)
unfolding handle_request
handle_request_lem req = ground arith
