-- ===== src/HashMap.antt =====
-- The hash map, src/Hashmap/hashmap.c: an array of entries that grows, filled from the front, with a
-- hash beside each key. The map pointer is not null; `entries==0` is the empty list. A payload is
-- what its pointer refers to, so that a copy of it is the same value, and `none` is the null
-- pointer. Calls of `malloc` and `realloc` that fail are flags of the call. A read through a null
-- pointer is `crash`. Calls on one map do not overlap: its lock is the callers' order of calls.
pub mod Operations
pub mod Valid
pub mod Keeps
pub mod KeepsRemoval
pub mod View
pub mod Added
pub mod Search
pub mod Sorted
pub mod Contents
pub mod Removed
pub mod Held
pub mod Written
pub mod ContainsKey
mod Examples
pub use ammar_server.Base.{ulong, uint}
use ammar_server.Base.{
  ℕ, zero, suc, ◌+◌, ◌-◌, ◌*◌, ◌/◌, ◌%◌, ◌^◌, Bool, true, false, not, ◌&&◌, ◌||◌, List, [], ◌∷◌,
  ◌++◌, Option, none, some, Bytes, length, get_elem?, set, take, drop, replicate, ltb, leb, ◌==◌,
  if◌then◌else◌,
}
use ammar_server.Base.Text.{strcmp}

-- A `char` as the `int` that it is promoted to, modulo 2 ^ 64.
abbrev pub char_value : ℕ → ℕ
char_value c = if ltb c 128 then c else ulong - 256 + c

-- The loop of `hashFunction`, which takes the terminator in as a last character.
unfoldable pub hash_loop : Bytes → ℕ → ℕ
hash_loop [] hash = (hash * 2 ^ 5 % ulong + hash) % ulong
hash_loop (c ∷ cs) hash =
    hash_loop cs (((hash * 2 ^ 5 % ulong + hash) % ulong + char_value c) % ulong)

unfoldable pub hash_function : Option Bytes → ℕ
unfolding hash_loop
hash_function none = 0
hash_function (some []) = 0
hash_function (some (c ∷ cs)) = hash_loop (c ∷ cs) 5381

pub record Entry (V : Type 0) : Type 0 where
  pub index : ℕ
  pub key_hash : ℕ
  pub key_length : ℕ
  pub key : Option Bytes
  pub payload_length : ℕ
  pub payload : Option V
  pub hits : ℕ

pub record HashMap (V : Type 0) : Type 0 where
  pub max_number_of_entries : ℕ
  pub cur_number_of_entries : ℕ
  pub entry_allocation_step : ℕ
  pub entries : List (Entry V)
  pub clear_callback : Bool
  pub is_sorted : Bool
  pub use_sorting : Bool

-- `none` is a fault: a null pointer read or written.
abbrev pub Run : Type 0 → Type 0
Run A = Option A

pub data Lookup : Type 0 where
  hit : ℕ → Lookup
  miss crash : Lookup

module _ {V : Type 0} where
  -- What `memset` leaves.
  abbrev pub zero_entry : Entry V
  zero_entry = record {
    index = 0;
    key_hash = 0;
    key_length = 0;
    key = none;
    payload_length = 0;
    payload = none;
    hits = 0;
  }

  -- `hashMap_Grow`; the flag is the success of `realloc`.
  unfoldable pub hash_map_grow : HashMap V → ℕ → Bool → HashMap V × Bool
  hash_map_grow hm growth_size false = (hm, false)
  hash_map_grow hm growth_size true = (
    record hm {
      entries = hm.entries ++ replicate growth_size zero_entry;
      max_number_of_entries = (hm.max_number_of_entries + growth_size) % uint;
    },
    true,
  )

  -- `hashMap_Create`; the flags are the success of `malloc` and of `realloc`.
  unfoldable pub hash_map_create : ℕ → ℕ → Bool → Bool → Bool → Bool → Option (HashMap V)
  unfolding hash_map_grow
  hash_map_create initial_entries step callback sorting false grow_ok = none
  hash_map_create initial_entries step callback sorting true grow_ok =
      let empty : HashMap V = record {
        max_number_of_entries = 0;
        cur_number_of_entries = 0;
        entry_allocation_step = step;
        entries = [];
        clear_callback = false;
        is_sorted = false;
        use_sorting = sorting;
      } in
      let (grown, done) = hash_map_grow empty initial_entries grow_ok in
      if done then some (record grown { clear_callback = callback }) else none

  unfoldable pub is_empty_list : List (Entry V) → Bool
  is_empty_list [] = true
  is_empty_list (e ∷ es) = false

  unfoldable pub hash_map_is_ok : HashMap V → Bool
  unfolding is_empty_list
  hash_map_is_ok hm =
      if is_empty_list hm.entries
      then false
      else if hm.max_number_of_entries == 0
      then false
      else true

  unfoldable pub hash_map_get_current_number_of_entries : HashMap V → ℕ
  hash_map_get_current_number_of_entries hm =
      if not (hash_map_is_ok hm) then 0 else hm.cur_number_of_entries

  unfoldable pub hash_map_get_max_number_of_entries : HashMap V → ℕ
  hash_map_get_max_number_of_entries hm =
      if not (hash_map_is_ok hm) then 0 else hm.max_number_of_entries

  abbrev pub live : HashMap V → List (Entry V)
  live hm = take hm.cur_number_of_entries hm.entries

  -- The loop of `hashMap_IsSorted`, from the second entry on.
  unfoldable pub sorted_from : List (Entry V) → Bool
  sorted_from [] = true
  sorted_from (e ∷ []) = true
  sorted_from (e ∷ f ∷ es) = if ltb f.key_hash e.key_hash then false else sorted_from (f ∷ es)

  unfoldable pub hash_map_is_sorted : HashMap V → Bool
  unfolding sorted_from
  hash_map_is_sorted hm = if not (hash_map_is_ok hm) then false else sorted_from (live hm)

  -- One round of `hashMap_Clear`: what the callback is given is freed by it, and the pointer stays.
  unfoldable pub clear_entry : Bool → Entry V → Entry V
  clear_entry callback e = record e {
    payload = if callback then e.payload else if e.payload_length == 0 then e.payload else none;
    key = none;
    key_hash = 0;
    key_length = 0;
  }

  unfoldable pub clear_entries : Bool → ℕ → List (Entry V) → List (Entry V)
  unfolding clear_entry
  clear_entries callback zero es = es
  clear_entries callback (suc n) [] = []
  clear_entries callback (suc n) (e ∷ es) = clear_entry callback e ∷ clear_entries callback n es

  unfoldable pub hash_map_clear : HashMap V → HashMap V
  unfolding clear_entries
  hash_map_clear hm = if not (hash_map_is_ok hm) then hm else record hm {
    is_sorted = false;
    cur_number_of_entries = 0;
    entries = clear_entries hm.clear_callback hm.cur_number_of_entries hm.entries;
  }

  -- `qsort` with `cmpHashTableItems`: by the hash, stable.
  unfoldable pub insert_entry : Entry V → List (Entry V) → List (Entry V)
  insert_entry e [] = e ∷ []
  insert_entry e (f ∷ es) =
      let later = f ∷ insert_entry e es in if leb e.key_hash f.key_hash then e ∷ f ∷ es else later

  unfoldable pub sort_entries : List (Entry V) → List (Entry V)
  unfolding insert_entry
  sort_entries [] = []
  sort_entries (e ∷ es) = insert_entry e (sort_entries es)

  unfoldable pub hash_map_sort : HashMap V → HashMap V × Bool
  unfolding sort_entries
  hash_map_sort hm =
      if not hm.use_sorting then (hm, false) else if not (hash_map_is_ok hm) then (hm, false) else (
        record hm {
          entries = sort_entries (live hm) ++ drop hm.cur_number_of_entries hm.entries;
          is_sorted = true;
        },
        true,
      )

  unfoldable pub hash_map_prepare_for_queries : HashMap V → HashMap V × Bool
  hash_map_prepare_for_queries hm =
      if not (hash_map_is_ok hm)
      then (hm, false)
      else if not hm.is_sorted
      then ((hash_map_sort hm).0, true)
      else (hm, true)

  -- The loop of `hashMap_FindIndexSerialWithPrecomputedHash`, from the entry at `i` on.
  unfoldable pub find_serial : Bytes → ℕ → List (Entry V) → ℕ → Lookup
  find_serial key key_hash [] i = miss
  find_serial key key_hash (e ∷ es) i =
      let rest = find_serial key key_hash es (i + 1) in
      if e.key_hash == key_hash
      then elim e.key [ none ↦ crash | some stored ↦ if strcmp key stored then hit i else rest ]
      else rest

  unfoldable pub find_index_serial_with_precomputed_hash : HashMap V → Bytes → ℕ → Lookup
  unfolding find_serial
  find_index_serial_with_precomputed_hash hm key key_hash = find_serial key key_hash (live hm) 0

  unfoldable pub find_index_serial : HashMap V → Bytes → Lookup
  unfolding find_index_serial_with_precomputed_hash
  find_index_serial hm key =
      find_index_serial_with_precomputed_hash hm key (hash_function (some key))

  -- `++hm->entries[i].hits`
  unfoldable pub count_hit : HashMap V → ℕ → HashMap V
  count_hit hm i = elim (get_elem? hm.entries i) [
    | none ↦ hm
    | some e ↦ record hm { entries = set hm.entries i (record e { hits = (e.hits + 1) % uint }) }
  ]
