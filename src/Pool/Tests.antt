-- ===== src/Pool/Tests.antt =====
-- Tests of RequestContextPool of src/common.cc.
use zstore.Common.{ℕ, ◌<◌, ◌≤◌, ◌≡◌, refl, true, none, some, List, [], ◌∷◌, arith, ok, ◌>>=◌}
use zstore.Conf.{default_conf}
use zstore.Pool.{
  Pool, fill, take_context, mark_taken, new_pool, get_request_context, return_request_context,
  clear_context, with_buffer, zero_context,
}
use zstore.Pool.Invariant.{IsPool, new_pool-IsPool}
use zstore.Pool.Lending.{IsLent, get_request_context-lends, return_request_context-clear}

abbrev no_memory : ℕ → List ℕ
no_memory n = []

abbrev two : Pool
two = new_pool default_conf no_memory 2

abbrev two_lent : Pool
two_lent = (get_request_context default_conf no_memory true two).1

-- The last context of the array is the first to be lent.
lent_first : (get_request_context default_conf no_memory true two).0 ≡ some 1
unfolding get_request_context new_pool fill take_context
lent_first = refl

two_lent-IsPool : IsPool two_lent
two_lent-IsPool =
    (get_request_context-lends default_conf no_memory two
      ((new_pool-IsPool default_conf no_memory 2).0)).2

two_lent-IsLent : IsLent two_lent 1
unfolding get_request_context new_pool fill take_context mark_taken
two_lent-IsLent = record {
  context = mark_taken (with_buffer default_conf no_memory zero_context);
  alive = refl;
  taken = refl;
  unlisted = omega arith;
  known = omega arith;
}

return_request_context-clear_example :
    (q : Pool) × ((clear_context 1 two_lent >>= return_request_context 1) ≡ ok q)
    × IsPool q
    × (1 < two_lent.capacity → q.available ≡ 1 ∷ two_lent.available)
    × (two_lent.capacity ≤ 1 → (q.available ≡ two_lent.available) × (q.memory 1 ≡ none))
return_request_context-clear_example =
    return_request_context-clear two_lent 1 two_lent-IsPool two_lent-IsLent
