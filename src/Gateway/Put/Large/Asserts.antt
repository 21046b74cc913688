-- ===== src/Gateway/Put/Large/Asserts.antt =====
-- What a PUT of an object larger than a chunk comes to (src/http_server.cc with MakeWriteChunk of
-- src/common.cc).
use native.Mathlib.Nat.{mod-eq_of_lt}
use zstore.Common.{
  ℕ, suc, ◌/◌, ◌%◌, ◌<◌, ◌≡◌, ◌≢◌, refl, ap, sym, ◌∙◌, true, false, some, List, length,
  length-replicate, get_elem?_lt, arith, ltb, lt→ltb, ok, err, assertion, u32_mod, if◌then◌else◌,
}
use zstore.Conf.{Conf}
use zstore.Device.{Device}
use zstore.Hash.{KeyHash, compute_sha256}
use zstore.Http.{HttpRequest, parse_url}
use zstore.Object.{ZstoreObject, block}
use zstore.Object.Split.Pieces.{split_object_into_chunks-first}
use zstore.Pool.{Pool, buffer_size_of}
use zstore.Pool.Held.Back.{IsIdle}
use zstore.Request.{make_write_chunk}
use zstore.Request.Making.{make_write_chunk-lends}
use zstore.Store.{DevTuple, MapEntry, create_map_entry}
use zstore.Store.Map.{FlatMap}
use zstore.Store.DevHash.{create_fake_object, get_dev_tuple, get_dev_tuple_for_random_reads}
use zstore.Gateway.{Gateway, get_device_by_id, is_empty}
use zstore.Gateway.Lookup.{add_to_broadcast-cases}
use zstore.Gateway.Put.{Surroundings, put_object_of, large_write, put_new, put_handler}
use zstore.Gateway.Put.Large.{LargeWrite, pointed, write_three, chunk_writes, put_large}
use zstore.Gateway.Put.Conditions.{IsSurroundings, IsReady, tuple-IsSpread}

put_large-asserts :
    (c : Conf) (w : LargeWrite) (F : FlatMap MapEntry) (dev1 dev2 dev3 : Device)
    (obj : ZstoreObject) (b : List ℕ) (p : Pool)
    → ((n : ℕ) → length (w.zmalloc n) ≡ n)
    → IsIdle c p
    → 0 < c.block_size
    → 0 < c.chunk_size
    → c.chunk_size < c.object_size
    → c.object_size < u32_mod
    → c.chunk_size / c.block_size ≢ c.object_size / c.block_size
    → obj.body ≡ block b
    → length b ≡ obj.datalen
    → obj.datalen ≡ c.object_size
    → put_large F c w (some dev1) (some dev2) (some dev3) obj p ≡ err assertion
unfolding put_large chunk_writes write_three pointed buffer_size_of
put_large-asserts c w F dev1 dev2 dev3 obj b p spec idle pos pos' large word ne body len size =
    let (m, chunk, chunks, bytes, count, cut, inside, full) =
      split_object_into_chunks-first c w.raw w.raw' obj b body len size pos'
        (omega (arith, size, large)) in
    let count' : c.object_size / c.chunk_size ≡ suc m =
      ap (λ x. x / c.chunk_size) (sym size) ∙ count in
    let buffer : buffer_size_of c ≡ c.chunk_size =
      rw (lt→ltb c.chunk_size c.object_size large) refl in
    let word' : c.object_size % u32_mod ≡ c.object_size = mod-eq_of_lt word in
    let fails : make_write_chunk c w.zmalloc (some dev1) bytes c.object_size p ≡ err assertion =
      (make_write_chunk-lends c w.zmalloc dev1 bytes c.object_size p idle.pool idle.buffered spec
          pos (omega (arith, buffer, full))).0
        (rw (buffer, word') ne) in
    rw cut (rw count' (rw inside (rw fails refl)))

put_new-stops :
    (c : Conf) (w : Surroundings) (F : FlatMap MapEntry) (k : KeyHash) (req : HttpRequest)
    (g : Gateway F) (t : DevTuple) (dev1 dev2 dev3 : Device)
    → (if c.experimental
        then ok (get_dev_tuple_for_random_reads c)
        else get_dev_tuple w.rand g.dev_hash k)
      ≡ ok t
    → get_device_by_id F t.first.device_id g ≡ some dev1
    → get_device_by_id F t.second.device_id g ≡ some dev2
    → get_device_by_id F t.third.device_id g ≡ some dev3
    → w.alloc c.object_size ≡ true
    → ltb c.chunk_size c.object_size ≡ true
    → put_large F c
        (large_write w)
        (some dev1)
        (some dev2)
        (some dev3)
        (put_object_of c w req)
        g.contexts
      ≡ err assertion
    → put_new F c w k req g ≡ err assertion
unfolding put_new create_fake_object create_map_entry
put_new-stops c w F k req g t dev1 dev2 dev3 chosen e1 e2 e3 memory large fails =
    rw chosen (rw (e1, e2, e3) (rw memory (rw large (rw fails refl))))

put_new-asserts :
    (c : Conf) (w : Surroundings) (F : FlatMap MapEntry) (k : KeyHash) (req : HttpRequest)
    (g : Gateway F)
    → IsSurroundings c w
    → IsReady c F g
    → 0 < c.block_size
    → 0 < c.chunk_size
    → c.chunk_size < c.object_size
    → c.object_size < u32_mod
    → c.chunk_size / c.block_size ≢ c.object_size / c.block_size
    → put_new F c w k req g ≡ err assertion
unfolding get_device_by_id put_object_of
put_new-asserts c w F k req g around ready pos pos' large word ne =
    let (t, chosen, spread) = tuple-IsSpread c w.rand k in
    let (dev1, e1) = get_elem?_lt g.devices t.first.device_id (omega (arith, spread, ready.six)) in
    let (dev2, e2) = get_elem?_lt g.devices t.second.device_id (omega (arith, spread, ready.six)) in
    let (dev3, e3) = get_elem?_lt g.devices t.third.device_id (omega (arith, spread, ready.six)) in
    put_new-stops c w F k req g t dev1 dev2 dev3 (rw ready.hash chosen) e1 e2 e3 around.alloc_object
      (lt→ltb c.chunk_size c.object_size large)
      (put_large-asserts c (large_write w) F dev1 dev2 dev3 (put_object_of c w req) _ g.contexts
        around.zmalloc_length ready.idle pos pos' large word ne refl
        (length-replicate c.object_size _) refl)

-- A PUT or POST of a target with a key always fails an assert where an object is larger than a chunk and
-- takes another number of blocks: the append asks for as many blocks as the object has, and a buffer has
-- those of a chunk. The conditions: the gateway has the six devices and no context in use, the sizes are
-- not 0 and in range, and the memory is there.
pub put_handler-asserts :
    (c : Conf) (w : Surroundings) (F : FlatMap MapEntry) (req : HttpRequest) (g : Gateway F)
    → IsSurroundings c w
    → IsReady c F g
    → 0 < c.block_size
    → 0 < c.chunk_size
    → c.chunk_size < c.object_size
    → c.object_size < u32_mod
    → c.chunk_size / c.block_size ≢ c.object_size / c.block_size
    → is_empty F ((parse_url req.target).1) ≡ false
    → put_handler F c w req g ≡ err assertion
unfolding put_handler
put_handler-asserts c w F req g around ready pos pos' large word ne named =
    let k = compute_sha256 w.digest ((parse_url req.target).1) in
    let (b, eq) = add_to_broadcast-cases F k g in
    rw named (
      rw eq (
        rw
          (put_new-asserts c w F k req (record g { broadcast = b }) around
            (record { idle = ready.idle; six = ready.six; hash = ready.hash }) pos pos' large word
            ne)
          refl))
