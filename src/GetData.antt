-- ===== src/GetData.antt =====
-- The fields of a query, src/AmmServerlib/header_analysis/get_data.c, which are found within the buffer
-- of the request. A pointer into the buffer is an offset from the query, and `none` is the null
-- pointer. The buffer is the query and what stands behind it, the terminator included. An access
-- outside of the buffer or of the array of items, and `strlen` of a null pointer, are a crash.
pub mod Ends
pub mod Nameless
pub mod Reading
pub mod Fields
pub mod Scanned
pub mod Found
pub mod Lengths
pub mod Query
pub mod Lookup
pub mod Values
pub mod Crash
pub mod Pairs
mod Examples
use ammar_server.Base.{
  ℕ, zero, suc, ◌+◌, Bool, true, false, ◌||◌, List, [], ◌∷◌, Option, none, some, Bytes, length,
  get_elem?, set, replicate, drop, ltb, ◌==◌, if◌then◌else◌, ◌>>=◌, ◌++◌,
}

-- A run that may crash, which is `none`.
abbrev pub Run : Type 0 → Type 0
Run A = Option A

-- `MAX_HTTP_GET_VARIABLE_COUNT`; the array has one item more.
abbrev pub max_variable_count : ℕ
max_variable_count = 128

-- `struct GETRequestContent`
pub record Item : Type 0 where
  pub name : Option ℕ
  pub name_size : ℕ
  pub value : Option ℕ
  pub value_size : ℕ
  pub reallocate_on_resize : Bool

abbrev pub zero_item : Item
zero_item = record {
  name = none;
  name_size = 0;
  value = none;
  value_size = 0;
  reallocate_on_resize = false;
}

-- `enum GETAutomatonStates`
pub data AutomatonState : Type 0 where
  found_nothing seeking_name seeking_value : AutomatonState

-- The variables of `finalizeGenericGETField`: the buffer, `startOfPTR`, `state`, `*targetNumber` and
-- the array.
pub record Scan : Type 0 where
  pub buffer : Bytes
  pub start : ℕ
  pub state : AutomatonState
  pub target_number : ℕ
  pub target : List Item

-- `createGETData`, which wipes all items but the last one of the array.
unfoldable pub wiped : List Item → List Item
wiped target = replicate max_variable_count zero_item ++ drop max_variable_count target

-- `target[*targetNumber].name=startOfPTR; target[*targetNumber].value=0;`
unfoldable pub store_name : Scan → Run Scan
store_name s = do
  item ← get_elem? s.target s.target_number
  some (record s {
    target = set s.target s.target_number (record item { name = some s.start; value = none });
  })

-- `target[*targetNumber].value=startOfPTR;`
unfoldable pub store_value : Scan → Run Scan
store_value s = do
  item ← get_elem? s.target s.target_number
  some (record s { target = set s.target s.target_number (record item { value = some s.start }) })

-- `*GETPtr=0;`
unfoldable pub terminate : ℕ → Scan → Run Scan
terminate i s =
    if ltb i (length s.buffer) then some (record s { buffer = set s.buffer i 0 }) else none

-- `*targetNumber+=1;`
abbrev pub next_item : Scan → Scan
next_item s = record s { target_number = s.target_number + 1 }

abbrev pub is_line_end : ℕ → Bool
is_line_end c = (c == 10 || c == 13) || c == 0

-- The end of the text within the query.
unfoldable pub at_line_end : AutomatonState → ℕ → Scan → Run Scan
unfolding store_name store_value terminate
at_line_end found_nothing i s = some s
at_line_end seeking_name i s = do
  named ← store_name s
  ended ← terminate i named
  some (next_item ended)
at_line_end seeking_value i s = do
  valued ← store_value s
  ended ← terminate i valued
  some (next_item ended)

unfoldable pub at_equals : AutomatonState → ℕ → Scan → Run Scan
unfolding store_name terminate
at_equals seeking_name i s = do
  named ← store_name s
  ended ← terminate i named
  some (record ended { state = seeking_value; start = i + 1 })
at_equals other i s = some s

unfoldable pub at_ampersand : AutomatonState → ℕ → Scan → Run Scan
unfolding store_name store_value terminate
at_ampersand found_nothing i s = some s
at_ampersand seeking_name i s = do
  named ← store_name s
  ended ← terminate i (next_item named)
  some (record ended { start = i + 1 })
at_ampersand seeking_value i s = do
  valued ← store_value s
  ended ← terminate i (next_item valued)
  some (record ended { state = seeking_name; start = i + 1 })

-- `if (state == FOUND_NOTHING) { state=SEEKING_NAME; }`
abbrev pub begun : AutomatonState → AutomatonState
begun found_nothing = seeking_name
begun other = other

unfoldable pub at_character : ℕ → ℕ → Scan → Run Scan
unfolding at_equals at_ampersand
at_character c i s =
    let s' = record s { state = begun s.state } in
    if c == b'='
    then at_equals s'.state i s'
    else if c == b'&'
    then at_ampersand s'.state i s'
    else some s'

-- The loop, and where `GETPtr` ends.
unfoldable pub scan_loop : ℕ → ℕ → Scan → Run (Scan × ℕ)
unfolding at_line_end at_character
scan_loop zero i s = some (s, i)
scan_loop (suc rounds) i s = do
  c ← get_elem? s.buffer i
  let stop = do ended ← at_line_end s.state i s; some (ended, i)
  let go = do read ← at_character c i s; scan_loop rounds (i + 1) read
  if is_line_end c then stop else go

-- The last value.
unfoldable pub last_value : AutomatonState → Scan × ℕ → Run Scan
unfolding store_value terminate
last_value seeking_value (s, i) = do
  valued ← store_value s
  ended ← terminate i valued
  some (next_item ended)
last_value other (s, i) = some s

unfoldable pub one_more : Option ℕ → Option ℕ
one_more none = none
one_more (some n) = some (suc n)

-- `strlen`, which leaves the buffer if there is no terminator.
unfoldable pub strlen : Bytes → Run ℕ
unfolding one_more
strlen [] = none
strlen (c ∷ s) = let rest = one_more (strlen s) in if c == 0 then some 0 else rest

unfoldable pub strlen_at : Bytes → Option ℕ → Run ℕ
unfolding strlen
strlen_at buffer none = none
strlen_at buffer (some at) = strlen (drop at buffer)

-- The last loop, on the items that were found.
unfoldable pub measure : ℕ → Bytes → List Item → Run (List Item)
unfolding strlen_at
measure zero buffer items = some items
measure (suc n) buffer [] = none
measure (suc n) buffer (item ∷ items) = do
  name_size ← strlen_at buffer item.name
  value_size ← strlen_at buffer item.value
  rest ← measure n buffer items
  some (
      record item { reallocate_on_resize = true; name_size = name_size; value_size = value_size }
      ∷ rest)

-- What follows the loop.
unfoldable pub finish : Scan × ℕ → Run (Scan × Bool)
unfolding last_value measure
finish (s, i) = do
  done ← last_value s.state (s, i)
  items ← measure done.target_number done.buffer done.target
  some (record done { target = items }, true)

-- The variables at the start of the loop.
abbrev pub scan_of : List Item → Bytes → Scan
scan_of target buffer = record {
  buffer = buffer;
  start = 0;
  state = found_nothing;
  target_number = 0;
  target = target;
}

-- `finalizeGenericGETField`: the scan at its end, and what it returns.
unfoldable pub finalize_generic_get_field : List Item → Bytes → ℕ → Run (Scan × Bool)
unfolding scan_loop finish
finalize_generic_get_field target buffer value_length =
    let finalized = scan_loop value_length 0 (scan_of target buffer) >>= finish in
    if value_length == 0 then some (scan_of target buffer, false) else finalized

-- `finalizeGETData`: the query is the null pointer or a buffer, and `request_size` what `strnlen` is
-- given.
unfoldable pub strnlen : Bytes → ℕ → ℕ
strnlen s zero = 0
strnlen [] (suc n) = 0
strnlen (c ∷ s) (suc n) = let rest = suc (strnlen s n) in if c == 0 then 0 else rest

unfoldable pub finalize_get_data : List Item → Option Bytes → ℕ → Run (Scan × Bool)
unfolding wiped strnlen finalize_generic_get_field
finalize_get_data target none request_size = some (scan_of (wiped target) [], false)
finalize_get_data target (some buffer) request_size =
    finalize_generic_get_field (wiped target) buffer (strnlen buffer request_size)
