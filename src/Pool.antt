-- ===== src/Pool.antt =====
-- RequestContext and RequestContextPool: src/include/types.h and src/common.cc. A context is known by
-- its address: the pre-allocated array has the addresses below `capacity`, and `new` gives `next`.
-- spdk_zmalloc is SPDK's: `zmalloc n` is what it returns for `n` bytes. A pool's methods hold one lock
-- from end to end, so they are atomic.
pub mod Invariant
pub mod Lending
pub mod Buffers
pub mod Held
pub mod Tests
use zstore.Common.{
  ℕ, zero, suc, ◌+◌, ◌-◌, ◌^◌, Bool, true, false, not, ◌&&◌, Option, none, some, List, [], ◌∷◌,
  length, ltb, leb, ◌==◌, if◌then◌else◌, u64_mod, Result, ok, err, assertion, null_pointer,
}
use mathlib.Core.Option
use zstore.Conf.{Conf}

-- `device` stands for the namespace and the queue pair of a device, `data_of` for the context whose
-- buffer `data` points to.
pub record IoContext : Type 0 where
  pub device : Option ℕ
  pub data_of : Option ℕ
  pub offset : ℕ
  pub size : ℕ
  pub flags : ℕ

-- `has_ctrl` and `has_io_thread`: the pointers to the one controller and to its I/O thread are set.
pub record RequestContext : Type 0 where
  pub has_ctrl : Bool
  pub has_io_thread : Bool
  pub device : Option ℕ
  pub io_context : IoContext
  pub buffer_size : ℕ
  pub data_buffer : List ℕ
  pub success : Bool
  pub available : Bool
  pub is_write : Bool
  pub write_complete : Bool
  pub append_lba : ℕ
  pub response_body : List ℕ
  pub timestamp : ℕ

-- `new RequestContext()` sets every field to zero.
abbrev pub zero_context : RequestContext
zero_context = record {
  has_ctrl = false;
  has_io_thread = false;
  device = none;
  io_context = record { device = none; data_of = none; offset = 0; size = 0; flags = 0 };
  buffer_size = 0;
  data_buffer = [];
  success = false;
  available = false;
  is_write = false;
  write_complete = false;
  append_lba = 0;
  response_body = [];
  timestamp = 0;
}

-- `timestamp = ~0ull`
unfoldable pub clear : RequestContext → RequestContext
clear r = record r {
  available = true;
  success = false;
  response_body = [];
  timestamp = u64_mod - 1;
}

-- The last element of `availableContexts` is the head of `available`.
pub record Pool : Type 0 where
  pub capacity : ℕ
  pub available : List ℕ
  pub memory : ℕ → Option RequestContext
  pub next : ℕ

abbrev pub write :
    (ℕ → Option RequestContext) → ℕ → Option RequestContext → ℕ → Option RequestContext
write m s r t = if s == t then r else m t

-- The object size, but at most the chunk size.
unfoldable pub buffer_size_of : Conf → ℕ
buffer_size_of c = if ltb c.chunk_size c.object_size then c.chunk_size else c.object_size

-- A context with its buffer, cleared. The order of the assignments does not show.
pub with_buffer : Conf → (ℕ → List ℕ) → RequestContext → RequestContext
unfolding clear
with_buffer c zmalloc r = record (clear r) {
  buffer_size = buffer_size_of c;
  data_buffer = zmalloc (buffer_size_of c);
}

-- The loop of the constructor over the first `n` contexts of the array.
pub fill : Conf → (ℕ → List ℕ) → ℕ → Pool → Pool
unfolding with_buffer
fill c zmalloc zero p = p
fill c zmalloc (suc n) p =
    let q = fill c zmalloc n p in
    record q {
      available = n ∷ q.available;
      memory = write q.memory n (some (with_buffer c zmalloc zero_context));
    }

pub new_pool : Conf → (ℕ → List ℕ) → ℕ → Pool
new_pool c zmalloc cap =
    fill c zmalloc cap (record { capacity = cap; available = []; memory = λ s. none; next = cap })

-- `ctx->Clear(); ctx->available = false;`
unfoldable pub mark_taken : RequestContext → RequestContext
unfolding clear
mark_taken r = record (clear r) { available = false }

-- A context from the list, or a new one.
pub take_context : Conf → (ℕ → List ℕ) → List ℕ → Pool → Option ℕ × Pool
take_context c zmalloc [] p = (
  some p.next,
  record p {
    memory = write p.memory p.next (some (mark_taken (with_buffer c zmalloc zero_context)));
    next = suc p.next;
  },
)
take_context c zmalloc (s ∷ rest) p = (
  some s,
  record p { available = rest; memory = write p.memory s (Option.map mark_taken (p.memory s)) },
)

abbrev is_empty : List ℕ → Bool
is_empty [] = true
is_empty (s ∷ rest) = false

-- `none` is the null pointer.
pub get_request_context : Conf → (ℕ → List ℕ) → Bool → Pool → Option ℕ × Pool
get_request_context c zmalloc force p =
    if is_empty p.available && not force then (none, p) else take_context c zmalloc p.available p

-- A context outside the array is deleted.
pub give_back : ℕ → RequestContext → Pool → Result Pool
give_back s r p =
    if r.available
    then (if leb p.capacity s
        then ok (record p { memory = write p.memory s none })
        else if leb (length p.available) p.capacity
        then ok (record p { available = s ∷ p.available })
        else err assertion)
    else err assertion

pub return_request_context : ℕ → Pool → Result Pool
unfolding give_back
return_request_context s p = elim (p.memory s) [
  | none ↦ err null_pointer
  | some r ↦ give_back s r p
]

-- `slot->Clear()` by the holder of a context.
pub clear_context : ℕ → Pool → Result Pool
clear_context s p = elim (p.memory s) [
  | none ↦ err null_pointer
  | some r ↦ ok (record p { memory = write p.memory s (some (clear r)) })
]
