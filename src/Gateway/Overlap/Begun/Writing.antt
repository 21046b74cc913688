-- ===== src/Gateway/Overlap/Begun/Writing.antt =====
-- A PUT of src/http_server.cc up to its co_await, while other requests wait.

use zstore.Common.{
  ◌≤◌, ◌≡◌, refl, ap, ◌∙◌, some, List, [], length, length-replicate, get_elem?, get_elem?_lt, ok,
  arith,
}
use zstore.Conf.{Conf}
use zstore.Device.{Device}
use zstore.Hash.{KeyHash}
use zstore.Http.{HttpRequest, status_ok, handle_request}
use zstore.Object.Log.Roundtrip.{write_zstore_object_to_buffer-block}
use zstore.Pool.{write}
use zstore.Pool.Held.{Held}
use zstore.Request.{deref}
use zstore.Request.Owned.{make_write_request-IsRequested}
use zstore.Store.Map.{get_object}
use zstore.Store.{MapEntry, DevTuple, create_map_entry}
use zstore.Store.Map.{FlatMap}
use zstore.Store.DevHash.{create_fake_object, populate_dev_hash}
use zstore.Gateway.{Gateway, get_device_by_id}
use zstore.Gateway.Put.{Surroundings, put_object_of, written_entry}
use zstore.Gateway.Put.Conditions.{IsSized, IsSurroundings, tuple-IsSpread, append_lbas}
use zstore.Gateway.Overlap.{begin_write}
use zstore.Gateway.Overlap.Atomic.{View, set, chosen_tuple, written_result, entry_for, atomic}
use zstore.Gateway.Overlap.Begun.{IsBusy, IsWriting, owned-IsBusy}

module _ (F : FlatMap MapEntry) (c : Conf) (devices : List Device)
    (moved : HttpRequest → HttpRequest) where
  module _ (w : Surroundings) (held : Held) (sized : IsSized c) (around : IsSurroundings c w)
      (six : 6 ≤ length devices) where
    written_result-written :
        (k : KeyHash) (t : DevTuple) (d1 d2 d3 : Device)
        → chosen_tuple c w (populate_dev_hash c []) k ≡ ok t
        → get_elem? devices t.first.device_id ≡ some d1
        → get_elem? devices t.second.device_id ≡ some d2
        → get_elem? devices t.third.device_id ≡ some d3
        → written_result c devices w k ≡ ok (written_entry t d1 d2 d3 (append_lbas w))
    unfolding written_result deref
    written_result-written k t d1 d2 d3 chosen e1 e2 e3 = rw chosen (rw (e1, e2, e3) refl)

    entry_for-written :
        (k : KeyHash) (e : MapEntry)
        → written_result c devices w k ≡ ok e
        → entry_for c devices w k ≡ some e
    unfolding entry_for
    entry_for-written k e done = rw (done, entry_for) refl

    -- A PUT or POST of an object no larger than a chunk. `g0` is the gateway that the request has met.
    pub write-IsBegun :
        (k : KeyHash) (req : HttpRequest) (g0 g : Gateway F)
        → g.objects ≡ g0.objects
        → IsBusy c F devices held g
        → ((m : View)
            → atomic F c devices moved (w, req) m ≡ (status_ok, set k (entry_for c devices w k) m))
        → (handle_request req).status ≡ status_ok
        → IsWriting F c devices moved w req held g0 (begin_write F c w k req g)
    unfolding begin_write get_device_by_id create_fake_object create_map_entry put_object_of
    write-IsBegun k req g0 g same b stores status =
        let (t, chosen, spread) = tuple-IsSpread c w.rand k in
        let (d1, e1) = get_elem?_lt devices t.first.device_id (omega (arith, spread, six)) in
        let (d2, e2) = get_elem?_lt devices t.second.device_id (omega (arith, spread, six)) in
        let (d3, e3) = get_elem?_lt devices t.third.device_id (omega (arith, spread, six)) in
        let (bytes, written) =
          write_zstore_object_to_buffer-block w.padding (put_object_of c w req) _ refl
            (length-replicate c.object_size _) (omega (arith, sized.object_u32)) in
        let q1 =
          make_write_request-IsRequested c w.zmalloc d1 (w.header bytes) g.contexts held
            around.zmalloc_length sized.block_pos sized.one_chunk sized.object_u32
            (around.header_length bytes) sized.pointer_fits b.owned in
        let h1 = write held q1.slot (some q1.context) in
        let q2 =
          make_write_request-IsRequested c w.zmalloc d2 (w.header bytes) q1.contexts h1
            around.zmalloc_length sized.block_pos sized.one_chunk sized.object_u32
            (around.header_length bytes) sized.pointer_fits q1.owned in
        let h2 = write h1 q2.slot (some q2.context) in
        let q3 =
          make_write_request-IsRequested c w.zmalloc d3 (w.header bytes) q2.contexts h2
            around.zmalloc_length sized.block_pos sized.one_chunk sized.object_u32
            (around.header_length bytes) sized.pointer_fits q2.owned in
        record {
          key_hash = k;
          tuple = t;
          dev1 = d1;
          dev2 = d2;
          dev3 = d3;
          s1 = q1.slot;
          s2 = q2.slot;
          s3 = q3.slot;
          r1 = q1.context;
          r2 = q2.context;
          r3 = q3.context;
          after = record g { contexts = q3.contexts };
          returns =
              rw (b.hash, b.same_devices)
                (rw chosen (
                  rw (e1, e2, e3)
                    (rw around.alloc_object
                      (rw written (rw q1.returns (rw q2.returns (rw q3.returns refl)))))));
          free1 = q1.free;
          free2 = q2.free;
          free3 = q3.free;
          ctrl1 = q1.has_ctrl;
          ctrl2 = q2.has_ctrl;
          ctrl3 = q3.has_ctrl;
          busy = owned-IsBusy F c devices moved held _ g _ b q3.owned refl refl refl;
          aimed = record {
            effect = λ m.
                stores m
                ∙ ap (λ o. (status_ok, set k o m))
                    (entry_for-written k _ (written_result-written k t d1 d2 d3 chosen e1 e2 e3));
            status = status;
            first_known = omega (arith, spread, six);
          };
          same_view = λ j. ap (λ o. get_object F j o) same;
        }
