-- ===== src/Object.antt =====
-- The objects on disk: src/include/object.h and src/object.cc. A buffer is a list of bytes.
pub mod Log
pub mod ChunkList
pub mod Split
pub mod Tests
use zstore.Common.{ℕ, ◌+◌, ◌%◌, ◌^◌, ◌<◌, ◌≡◌, List, [], ◌∷◌, All, length, byte_mod, u64_mod}

abbrev k_invalid : ℕ
k_invalid = 0

abbrev pub k_data : ℕ
k_data = 1

abbrev k_header : ℕ
k_header = 2

abbrev k_spliter : ℕ
k_spliter = 3

-- `entry_type` is the byte of the enum, which holds any byte after a memcpy.
pub record LogEntry : Type 0 where
  pub entry_type : ℕ
  pub next_offset : ℕ
  pub seqnum : ℕ
  pub chunk_seqnum : ℕ
  pub next : ℕ
  pub key_size : ℕ
  pub key_hash : List ℕ

-- The memory that `body` points to. `dangling` is a block that was freed.
pub data Body : Type 0 where
  null dangling : Body
  block : List ℕ → Body

pub record ZstoreObject : Type 0 where
  pub entry : LogEntry
  pub datalen : ℕ
  pub body : Body
  pub key_size : ℕ
  pub key_hash : List ℕ

-- The constructors leave both arrays `key_hash` as the memory was: `raw` and `raw'`.
new_log_entry : List ℕ → LogEntry
new_log_entry raw = record {
  entry_type = k_invalid;
  next_offset = 0;
  seqnum = 0;
  chunk_seqnum = 0;
  next = 0;
  key_size = 0;
  key_hash = raw;
}

pub new_object : List ℕ → List ℕ → ZstoreObject
unfolding new_log_entry
new_object raw raw' = record {
  entry = new_log_entry raw;
  datalen = 0;
  body = null;
  key_size = 0;
  key_hash = raw';
}

-- What the field types guarantee.
pub record IsLogEntry (e : LogEntry) : Type 0 where
  pub type_byte : e.entry_type < byte_mod
  pub next_offset_u64 : e.next_offset < u64_mod
  pub seqnum_u64 : e.seqnum < u64_mod
  pub chunk_seqnum_u64 : e.chunk_seqnum < u64_mod
  pub next_u64 : e.next < u64_mod
  pub key_size_u16 : e.key_size < 2 ^ 16
  pub key_hash_length : length e.key_hash ≡ 65

-- sizeof(LogEntry): 1 byte, 7 of padding, four words, 2 bytes, 65 characters, 5 of padding.
abbrev pub log_entry_size : ℕ
log_entry_size = 112
