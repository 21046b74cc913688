-- ===== src/Rdma/Tests.antt =====
-- Tests of the RDMA connection (src/rdma_utils.cc and src/rdma_common.cc).
use zstore.Common.{ℕ, ◌≡◌, List, [], ◌∷◌, map, replicate, codes, arith, ok, err, out_of_bounds}
use zstore.Hash.{KeyHash}
use zstore.Rdma.Server.{Server, on_pre_conn, on_connection, deliver, deliver_all}
use zstore.Rdma.Accepting.{IsShort, IsText, IsOpen, c_bytes, deliver_all-IsOpen}

abbrev pub raw_name : List ℕ
raw_name = replicate 16 7

abbrev pub raw_buffer : List ℕ
raw_buffer = replicate 32 9

abbrev pub gateway_name : List ℕ
gateway_name = codes "zstore1"

abbrev hash_text : List ℕ
hash_text = codes "1234567890abcdef"

hash_text-IsText : IsText hash_text
hash_text-IsText = ground arith

gateway_name-IsShort : IsShort gateway_name
gateway_name-IsShort = ground arith

deliver_all-IsOpen_example :
    (τ : Server) × (deliver_all
        (map c_bytes (gateway_name ∷ [] ∷ []))
        (on_connection (on_pre_conn raw_name raw_buffer))
      ≡ ok τ)
    × IsOpen gateway_name 32 2 τ
    × (deliver (c_bytes hash_text) τ ≡ err out_of_bounds)
deliver_all-IsOpen_example =
    deliver_all-IsOpen raw_name raw_buffer b'z' (codes "store1") hash_text ([] ∷ []) (omega arith)
      (gateway_name-IsShort, ((tt, omega arith), tt)) hash_text-IsText (omega arith) (omega arith)

abbrev pub waiting_keys : List KeyHash
waiting_keys = (1 ∷ 2 ∷ []) ∷ (3 ∷ []) ∷ []
