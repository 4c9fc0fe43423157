-- ===== src/CookieData.antt =====
-- The fields of a cookie header, src/AmmServerlib/header_analysis/cookie_data.c, which are found within
-- the buffer of the request. A pointer into the buffer is an offset from the value of the header; the
-- buffer goes on behind the counted region. An access outside of the buffer or of the array is a crash.
pub mod Safety
mod Examples
use ammar_server.Base.{
  ℕ, zero, suc, ◌+◌, ◌-◌, Bool, true, false, not, ◌||◌, List, Option, none, some, Bytes, length,
  get_elem?, set, map, ltb, leb, ◌==◌, if◌then◌else◌, ◌>>=◌, ◌++◌, take, drop,
}
use ammar_server.GetData.{Run, Item, max_variable_count, is_line_end, wiped}

-- The buffer, `*targetNumber` and the array.
pub record Fields : Type 0 where
  pub buffer : Bytes
  pub target_number : ℕ
  pub target : List Item

abbrev pub is_gap : ℕ → Bool
is_gap c = c == b' ' || c == b';'

abbrev pub is_name_character : ℕ → Bool
is_name_character c = not (c == b'=' || (c == b';' || is_line_end c))

abbrev pub is_value_character : ℕ → Bool
is_value_character c = not (c == b';' || is_line_end c)

-- `while ( (ptr<end) && ... ) { ++ptr; }`, with `end - ptr` as the last argument.
unfoldable pub skip_while : (ℕ → Bool) → Bytes → ℕ → ℕ → Run ℕ
skip_while test buffer ptr zero = some ptr
skip_while test buffer ptr (suc room) = do
  c ← get_elem? buffer ptr
  let rest = skip_while test buffer (ptr + 1) room
  if test c then rest else some ptr

-- `(ptr>=end) || (*ptr==10) || (*ptr==13) || (*ptr==0)`
unfoldable pub hits_line_terminator : Bytes → ℕ → ℕ → Run Bool
hits_line_terminator buffer end ptr =
    let read = get_elem? buffer ptr >>= (λ c. some (is_line_end c)) in
    if ltb ptr end then read else some true

-- `!( (ptr>=end) || (*ptr!='=') )`
unfoldable pub is_at_equals : Bytes → ℕ → ℕ → Run Bool
is_at_equals buffer end ptr =
    let read = get_elem? buffer ptr >>= (λ c. some (c == b'=')) in
    if ltb ptr end then read else some false

-- `if (ptr<end) { *ptr=0; }`
unfoldable pub terminate_within : Bytes → ℕ → ℕ → Run Bytes
terminate_within buffer end ptr =
    let write = if ltb ptr (length buffer) then some (set buffer ptr 0) else none in
    if ltb ptr end then write else some buffer

-- What a field writes into its item, and the step to the next item.
unfoldable pub store_field : Fields → Bytes → ℕ → ℕ → Option ℕ → ℕ → Run Fields
store_field s buffer name name_size value value_size = do
  item ← get_elem? s.target s.target_number
  some (record {
    buffer = buffer;
    target_number = s.target_number + 1;
    target = set s.target s.target_number (record item {
      name = some name;
      name_size = name_size;
      value = value;
      value_size = value_size;
    });
  })

abbrev pub next_place : Bool → ℕ → Option ℕ
next_place true ptr = none
next_place false ptr = some (ptr + 1)

-- A name without a value.
unfoldable pub bare_name : ℕ → ℕ → ℕ → Fields → Run (Fields × Option ℕ)
unfolding hits_line_terminator terminate_within store_field
bare_name end name_start ptr s = do
  stopped ← hits_line_terminator s.buffer end ptr
  buffer ← terminate_within s.buffer end ptr
  stored ← store_field s buffer name_start (ptr - name_start) none 0
  some (stored, next_place stopped ptr)

unfoldable pub name_and_value : ℕ → ℕ → ℕ → Fields → Run (Fields × Option ℕ)
unfolding skip_while hits_line_terminator terminate_within store_field
name_and_value end name_start equals s = do
  named ← terminate_within s.buffer end equals
  ptr ← skip_while is_value_character named (equals + 1) (end - (equals + 1))
  stopped ← hits_line_terminator named end ptr
  buffer ← terminate_within named end ptr
  stored ←
      store_field s buffer name_start (equals - name_start) (some (equals + 1)) (ptr - (equals + 1))
  some (stored, next_place stopped ptr)

unfoldable pub field : ℕ → ℕ → Fields → Run (Fields × Option ℕ)
unfolding skip_while is_at_equals bare_name name_and_value
field end name_start s = do
  ptr ← skip_while is_name_character s.buffer name_start (end - name_start)
  valued ← is_at_equals s.buffer end ptr
  if valued then name_and_value end name_start ptr s else bare_name end name_start ptr s

-- A round of the loop, and where the next begins, if there is one.
unfoldable pub cookie_round : ℕ → ℕ → Fields → Run (Fields × Option ℕ)
unfolding field
cookie_round end start s = do
  ptr ← skip_while is_gap s.buffer start (end - start)
  stopped ← hits_line_terminator s.buffer end ptr
  if stopped || leb max_variable_count s.target_number then some (s, none) else field end ptr s

unfoldable pub go_on : (ℕ → Fields → Run Fields) → Fields × Option ℕ → Run Fields
go_on loop (s, none) = some s
go_on loop (s, some ptr) = loop ptr s

unfoldable pub cookie_loop : ℕ → ℕ → ℕ → Fields → Run Fields
unfolding cookie_round go_on
cookie_loop zero end ptr s = if ltb ptr end then none else some s
cookie_loop (suc fuel) end ptr s =
    let round = cookie_round end ptr s >>= go_on (cookie_loop fuel end) in
    if ltb ptr end then round else some s

-- The items that were found are marked.
abbrev pub marked : Item → Item
marked item = record item { reallocate_on_resize = true }

unfoldable pub mark : ℕ → List Item → List Item
mark n items = map marked (take n items) ++ drop n items

-- `finalizeGenericCookieField`; each round goes forward, so that the length is enough fuel.
unfoldable pub finalize_generic_cookie_field : List Item → Bytes → ℕ → Run Fields
unfolding cookie_loop mark
finalize_generic_cookie_field target buffer value_length = do
  done ←
      cookie_loop value_length value_length 0
        (record { buffer = buffer; target_number = 0; target = target })
  some (record done { target = mark done.target_number done.target })

-- `finalizeCOOKIEData`; the null pointer is a header of no characters.
unfoldable pub finalize_cookie_data : List Item → Bytes → ℕ → Run (Fields × Bool)
unfolding wiped finalize_generic_cookie_field
finalize_cookie_data target buffer value_length =
    let wiped_fields : Fields = record {
      buffer = buffer;
      target_number = 0;
      target = wiped target;
    } in
    let finalized =
      finalize_generic_cookie_field (wiped target) buffer value_length
      >>= (λ done. some (done, true)) in
    if value_length == 0 then some (wiped_fields, false) else finalized
