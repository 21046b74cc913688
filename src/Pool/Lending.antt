-- ===== src/Pool/Lending.antt =====
-- GetRequestContext and ReturnRequestContext of src/common.cc: what is lent, and how it comes back.
use mathlib.Core.Path.{subst}
use mathlib.Core.Option
use zstore.Common.{
  ◌∙◌, Bool-cases, inl, inr, ltb, ltb→lt, ltb_false→le, ==_refl, ℕ, ◌<◌, ◌≤◌, ◌≡◌, ◌≢◌, refl, ap,
  true, false, Option, none, some, List, [], ◌∷◌, All, arith, ok, err, ◌>>=◌, assertion,
}
use zstore.Conf.{Conf}
use zstore.Pool.{
  Pool, RequestContext, write, clear, mark_taken, take_context, get_request_context, give_back,
  return_request_context, clear_context, with_buffer, zero_context,
}
use zstore.Pool.Invariant.{IsPool, AreFree, AreFree-write, length-available-le}

-- A context in the hands of a caller: alive, flagged as taken, and not in the list.
pub record IsLent (p : Pool) (s : ℕ) : Type 0 where
  pub context : RequestContext
  pub alive : p.memory s ≡ some context
  pub taken : context.available ≡ false
  pub unlisted : All (λ t. t ≢ s) p.available
  pub known : s < p.next

pub take_context-lends :
    (c : Conf) (zmalloc : ℕ → List ℕ) (ss : List ℕ) (p : Pool)
    → IsPool p
    → p.available ≡ ss
    → (s : ℕ) × ((take_context c zmalloc ss p).0 ≡ some s)
      × IsPool (take_context c zmalloc ss p).1
      × IsLent (take_context c zmalloc ss p).1 s
unfolding take_context mark_taken
take_context-lends c zmalloc [] p v e = (
  p.next,
  refl,
  record {
    free = rw e tt;
    array_below = omega (arith, v.array_below);
    unused = λ s h. ground (arith, v.unused s);
  },
  record {
    context = mark_taken (with_buffer c zmalloc zero_context);
    alive = ground arith;
    taken = refl;
    unlisted = rw e tt;
    known = omega arith;
  },
)
take_context-lends c zmalloc (s ∷ rest) p v e =
    let fr : AreFree p.memory p.capacity (s ∷ rest) =
      subst (AreFree p.memory p.capacity) e v.free in
    let low : s < p.next = omega (arith, fr.0, v.array_below) in
    let cell : Option.map mark_taken (p.memory s) ≡ some (mark_taken (fr.1.0)) =
      ap (Option.map mark_taken) fr.1.1 in
    (
      s,
      refl,
      record {
        free = AreFree-write p.memory p.capacity s _ rest fr.2 fr.3;
        array_below = v.array_below;
        unused = λ t h. ground (arith, v.unused t, low);
      },
      record {
        context = mark_taken (fr.1.0);
        alive = ground (arith, cell);
        taken = refl;
        unlisted = fr.2;
        known = low;
      },
    )

pub get_request_context_forced :
    (c : Conf) (zmalloc : ℕ → List ℕ) (p : Pool)
    → get_request_context c zmalloc true p ≡ take_context c zmalloc p.available p
unfolding get_request_context
get_request_context_forced c zmalloc p = ground arith

-- A forced request always gets a context, also from an empty pool: it is alive, flagged as taken and
-- no longer in the list, and the pool stays valid.
pub get_request_context-lends :
    (c : Conf) (zmalloc : ℕ → List ℕ) (p : Pool)
    → IsPool p
    → (s : ℕ) × ((get_request_context c zmalloc true p).0 ≡ some s)
      × IsPool (get_request_context c zmalloc true p).1
      × IsLent (get_request_context c zmalloc true p).1 s
get_request_context-lends c zmalloc p v =
    rw (get_request_context_forced c zmalloc p) (take_context-lends c zmalloc p.available p v refl)

-- A request that is not forced gets the null pointer exactly from an empty pool, which it leaves alone.
get_request_context_unforced :
    (c : Conf) (zmalloc : ℕ → List ℕ) (p : Pool)
    → (p.available ≡ [] → get_request_context c zmalloc false p ≡ (none, p))
      × (p.available ≢ []
          → get_request_context c zmalloc false p ≡ get_request_context c zmalloc true p)
unfolding get_request_context
get_request_context_unforced c zmalloc p = (λ h. ground arith, λ h. ground arith)

-- The memory of a cleared context.
abbrev cleared : Pool → ℕ → RequestContext → ℕ → Option RequestContext
cleared p s r = write p.memory s (some (clear r))

clear-return :
    (p : Pool) (s : ℕ) (l : IsLent p s)
    → (clear_context s p >>= return_request_context s)
      ≡ give_back s (clear l.context) (record p { memory = cleared p s l.context })
unfolding clear_context return_request_context
clear-return p s l = rw (l.alive, clear_context) (rw (==_refl s, return_request_context))

return_to_array :
    (p : Pool) (s : ℕ) (r : RequestContext)
    → IsPool p
    → s < p.capacity
    → give_back s (clear r) (record p { memory = cleared p s r })
      ≡ ok (record p { memory = cleared p s r; available = s ∷ p.available })
unfolding give_back clear
return_to_array p s r v h = ground (arith, length-available-le p v)

delete_new :
    (p : Pool) (s : ℕ) (r : RequestContext)
    → p.capacity ≤ s
    → give_back s (clear r) (record p { memory = cleared p s r })
      ≡ ok (record p { memory = write (cleared p s r) s none })
unfolding give_back clear
delete_new p s r h = ground arith

-- Clearing a lent context and returning it succeeds, whether it is of the array or was made by
-- `new`, and leaves a valid pool; a context of the array is at the end of the list again, and one
-- made by `new` is deleted.
pub return_request_context-clear :
    (p : Pool) (s : ℕ)
    → IsPool p
    → IsLent p s
    → (q : Pool) × ((clear_context s p >>= return_request_context s) ≡ ok q)
      × IsPool q
      × (s < p.capacity → q.available ≡ s ∷ p.available)
      × (p.capacity ≤ s → (q.available ≡ p.available) × (q.memory s ≡ none))
unfolding clear
return_request_context-clear p s v l = elim (Bool-cases (ltb s p.capacity)) [
  | inl e ↦
      let h : s < p.capacity = ltb→lt s p.capacity e in
      (
        record p { memory = cleared p s l.context; available = s ∷ p.available },
        clear-return p s l ∙ return_to_array p s l.context v h,
        record {
          free = (
            h,
            (clear l.context, (ground arith), refl),
            l.unlisted,
            AreFree-write p.memory p.capacity s _ p.available l.unlisted v.free,
          );
          array_below = v.array_below;
          unused = λ t k. ground (arith, v.unused t, l.known);
        },
        λ k. refl,
        λ k. absurd (omega arith),
      )
  | inr e ↦
      let h : p.capacity ≤ s = ltb_false→le s p.capacity e in
      (
        record p { memory = write (cleared p s l.context) s none },
        clear-return p s l ∙ delete_new p s l.context h,
        record {
          free =
              AreFree-write (cleared p s l.context) p.capacity s none p.available l.unlisted
                (AreFree-write p.memory p.capacity s _ p.available l.unlisted v.free);
          array_below = v.array_below;
          unused = λ t k. ground (arith, v.unused t);
        },
        λ k. absurd (omega arith),
        λ k. (refl, ground arith),
      )
]

-- A context that was not cleared is refused.
return_request_context_taken :
    (p : Pool) (s : ℕ) → IsLent p s → return_request_context s p ≡ err assertion
unfolding return_request_context
return_request_context_taken p s l =
    rw (l.alive, return_request_context) (rw (l.taken, give_back) refl)
