-- ===== src/CookieData/Safety.antt =====
-- No access outside of the counted region of a cookie header and of the array,
-- src/AmmServerlib/header_analysis/cookie_data.c.
use ammar_server.Base.{
  ℕ, zero, suc, ◌+◌, ◌-◌, ◌≤◌, ◌<◌, ◌≡◌, refl, ap, ◌∙◌, Bool, true, false, ◌||◌, List, Option, none,
  some, Bytes, length, get_elem?, ltb, leb, if◌then◌else◌, ◌>>=◌, drop, arith, length-set,
  drop-set_below, get_elem?_inside,
}
use ammar_server.GetData.{Run, Item, max_variable_count}
use ammar_server.CookieData.{
  Fields, is_gap, is_name_character, is_value_character, skip_while, hits_line_terminator,
  is_at_equals, terminate_within, store_field, next_place, bare_name, name_and_value, field,
  cookie_round, go_on, cookie_loop, mark, finalize_generic_cookie_field,
}

-- A run that ends with a value of which `P` holds.
pub data Runs {A : Type 0} (P : A → Type 0) : Run A → Type 0 where
  runs : {a : A} → P a → Runs P (some a)

Runs-bind :
    {A B : Type 0} {P : A → Type 0} {Q : B → Type 0} (m : Run A) (f : A → Run B)
    → Runs P m
    → ((a : A) → P a → Runs Q (f a))
    → Runs Q (m >>= f)
Runs-bind none f h next = elim h [ ]
Runs-bind (some a) f (runs h) next = next a h

Runs-weaken :
    {A : Type 0} {P Q : A → Type 0} {m : Run A} → ((a : A) → P a → Q a) → Runs P m → Runs Q m
Runs-weaken f (runs {a = a} h) = runs (f a h)

Runs-if :
    {A : Type 0} {P : A → Type 0} (b : Bool) {x y : Run A}
    → (b ≡ true → Runs P x)
    → (b ≡ false → Runs P y)
    → Runs P (if b then x else y)
Runs-if true hx hy = hx refl
Runs-if false hx hy = hy refl

get_elem?-Runs :
    {A : Type 0} (xs : List A) (i : ℕ) → i < length xs → Runs (λ a. Unit) (get_elem? xs i)
get_elem?-Runs xs i h = let (x, e) = get_elem?_inside xs i h in rw e (runs tt)

skip_while-Runs :
    (test : ℕ → Bool) (buffer : Bytes) (room ptr : ℕ)
    → ptr + room ≤ length buffer
    → Runs (λ p. (ptr ≤ p) × (p ≤ ptr + room)) (skip_while test buffer ptr room)
unfolding skip_while
skip_while-Runs test buffer zero ptr h = runs (omega arith, omega arith)
skip_while-Runs test buffer (suc room) ptr h =
    Runs-bind (get_elem? buffer ptr) _ (get_elem?-Runs buffer ptr (omega arith)) (λ c u.
      Runs-if (test c)
        (λ e.
          Runs-weaken (λ p k. let (low, high) = k in (omega arith, omega arith))
            (skip_while-Runs test buffer room (ptr + 1) (omega arith)))
        (λ e. runs (omega arith, omega arith)))

module _ (buffer : Bytes) (end ptr : ℕ) (h : end ≤ length buffer) where
  hits_line_terminator-Runs :
      Runs (λ stopped. stopped ≡ false → ptr < end) (hits_line_terminator buffer end ptr)
  unfolding hits_line_terminator
  hits_line_terminator-Runs =
      Runs-if (ltb ptr end)
        (λ e.
          let inside : ptr < end = ground arith in
          Runs-bind (get_elem? buffer ptr) _ (get_elem?-Runs buffer ptr (omega arith))
            (λ c u. runs (λ k. inside)))
        (λ e. runs (λ k. cc))

  is_at_equals-Runs : Runs (λ valued. valued ≡ true → ptr < end) (is_at_equals buffer end ptr)
  unfolding is_at_equals
  is_at_equals-Runs =
      Runs-if (ltb ptr end)
        (λ e.
          let inside : ptr < end = ground arith in
          Runs-bind (get_elem? buffer ptr) _ (get_elem?-Runs buffer ptr (omega arith))
            (λ c u. runs (λ k. inside)))
        (λ e. runs (λ k. cc))

  terminate_within-Runs :
      Runs
        (λ b. (length b ≡ length buffer) × (drop end b ≡ drop end buffer))
        (terminate_within buffer end ptr)
  unfolding terminate_within
  terminate_within-Runs =
      Runs-if (ltb ptr end)
        (λ e.
          let inside : ptr < end = ground arith in
          Runs-if (ltb ptr (length buffer))
            (λ f. runs (length-set buffer ptr 0, drop-set_below end buffer ptr 0 inside))
            (λ f. let no : ⊥ = ground arith in elim no [ ]))
        (λ e. runs (refl, refl))

-- The place of the next field, if there is one.
abbrev Next : ℕ → ℕ → Option ℕ → Type 0
Next start end none = Unit
Next start end (some ptr) = (start < ptr) × (ptr ≤ end)

next_place-Next :
    (stopped : Bool) (start end ptr : ℕ)
    → start ≤ ptr
    → (stopped ≡ false → ptr < end)
    → Next start end (next_place stopped ptr)
next_place-Next true start end ptr low inside = tt
next_place-Next false start end ptr low inside = let k = inside refl in (omega arith, omega arith)

-- What the loop keeps of a buffer and an array.
pub record Keeps (buffer : Bytes) (target : List Item) (end : ℕ) (s : Fields) : Type 0 where
  pub same_length : length s.buffer ≡ length buffer
  pub same_rest : drop end s.buffer ≡ drop end buffer
  pub same_items : length s.target ≡ length target
  pub few : s.target_number ≤ max_variable_count

module _ (buffer : Bytes) (target : List Item) (end : ℕ) (inside : end ≤ length buffer)
    (room : max_variable_count ≤ length target) where
  store_field-Runs :
      (s : Fields) (b : Bytes) (name name_size : ℕ) (value : Option ℕ) (value_size : ℕ)
      → Keeps buffer target end s
      → s.target_number < max_variable_count
      → (length b ≡ length s.buffer) × (drop end b ≡ drop end s.buffer)
      → Runs (Keeps buffer target end) (store_field s b name name_size value value_size)
  unfolding store_field
  store_field-Runs s b name name_size value value_size k few (long, rest) =
      let items = k.same_items in
      Runs-bind (get_elem? s.target s.target_number) _
        (get_elem?-Runs s.target s.target_number (omega arith))
        (λ item u. runs (record {
          same_length = long ∙ k.same_length;
          same_rest = rest ∙ k.same_rest;
          same_items = length-set s.target s.target_number _ ∙ items;
          few = omega arith;
        }))

  -- What a field ends with: the items and the place of the next field.
  abbrev GoesOn : ℕ → Fields × Option ℕ → Type 0
  GoesOn start r = Keeps buffer target end r.0 × Next start end r.1

  bare_name-Runs :
      (start name_start ptr : ℕ) (s : Fields)
      → Keeps buffer target end s
      → s.target_number < max_variable_count
      → start ≤ ptr
      → Runs (GoesOn start) (bare_name end name_start ptr s)
  unfolding bare_name
  bare_name-Runs start name_start ptr s k few low =
      let same = k.same_length in
      Runs-bind (hits_line_terminator s.buffer end ptr) _
        (hits_line_terminator-Runs s.buffer end ptr (omega arith))
        (λ stopped ahead.
          Runs-bind (terminate_within s.buffer end ptr) _
            (terminate_within-Runs s.buffer end ptr (omega arith))
            (λ b kept.
              Runs-bind (store_field s b name_start (ptr - name_start) none 0) _
                (store_field-Runs s b name_start (ptr - name_start) none 0 k few kept)
                (λ stored l. runs (l, next_place-Next stopped start end ptr low ahead))))

  name_and_value-Runs :
      (start name_start equals : ℕ) (s : Fields)
      → Keeps buffer target end s
      → s.target_number < max_variable_count
      → start ≤ equals
      → equals < end
      → Runs (GoesOn start) (name_and_value end name_start equals s)
  unfolding name_and_value
  name_and_value-Runs start name_start equals s k few low within =
      let same = k.same_length in
      Runs-bind (terminate_within s.buffer end equals) _
        (terminate_within-Runs s.buffer end equals (omega arith))
        (λ named (long, rest).
          Runs-bind (skip_while is_value_character named (equals + 1) (end - (equals + 1))) _
            (skip_while-Runs is_value_character named (end - (equals + 1)) (equals + 1)
              (omega arith))
            (λ ptr (above, below).
              Runs-bind (hits_line_terminator named end ptr) _
                (hits_line_terminator-Runs named end ptr (omega arith))
                (λ stopped ahead.
                  Runs-bind (terminate_within named end ptr) _
                    (terminate_within-Runs named end ptr (omega arith))
                    (λ b (long', rest').
                      Runs-bind (store_field s b _ _ _ _) _
                        (store_field-Runs s b _ _ _ _ k few (long' ∙ long, rest' ∙ rest))
                        (λ stored l.
                          runs (l, next_place-Next stopped start end ptr (omega arith) ahead))))))

  field-Runs :
      (start name_start : ℕ) (s : Fields)
      → Keeps buffer target end s
      → s.target_number < max_variable_count
      → start ≤ name_start
      → name_start ≤ end
      → Runs (GoesOn start) (field end name_start s)
  unfolding field
  field-Runs start name_start s k few low within =
      let same = k.same_length in
      Runs-bind (skip_while is_name_character s.buffer name_start (end - name_start)) _
        (skip_while-Runs is_name_character s.buffer (end - name_start) name_start (omega arith))
        (λ ptr (above, below).
          Runs-bind (is_at_equals s.buffer end ptr) _
            (is_at_equals-Runs s.buffer end ptr (omega arith))
            (λ valued ahead.
              Runs-if valued
                (λ e. name_and_value-Runs start name_start ptr s k few (omega arith) (ahead e))
                (λ e. bare_name-Runs start name_start ptr s k few (omega arith))))

  cookie_round-Runs :
      (start : ℕ) (s : Fields)
      → Keeps buffer target end s
      → start ≤ end
      → Runs (GoesOn start) (cookie_round end start s)
  unfolding cookie_round
  cookie_round-Runs start s k within =
      let same = k.same_length in
      Runs-bind (skip_while is_gap s.buffer start (end - start)) _
        (skip_while-Runs is_gap s.buffer (end - start) start (omega arith))
        (λ ptr (above, below).
          Runs-bind (hits_line_terminator s.buffer end ptr) _
            (hits_line_terminator-Runs s.buffer end ptr (omega arith))
            (λ stopped ahead.
              Runs-if (stopped || leb max_variable_count s.target_number) (λ e. runs (k, tt))
                (λ e. field-Runs start ptr s k (ground arith) above (omega arith))))

  go_on-Runs :
      (start : ℕ) (loop : ℕ → Fields → Run Fields)
      → ((ptr : ℕ) (s : Fields)
          → Keeps buffer target end s
          → start < ptr
          → ptr ≤ end
          → Runs (Keeps buffer target end) (loop ptr s))
      → (r : Fields × Option ℕ) → GoesOn start r
      → Runs (Keeps buffer target end) (go_on loop r)
  unfolding go_on
  go_on-Runs start loop h (s, none) (k, u) = runs k
  go_on-Runs start loop h (s, some ptr) (k, (low, high)) = h ptr s k low high

  cookie_loop-Runs :
      (fuel start : ℕ) (s : Fields)
      → Keeps buffer target end s
      → start ≤ end
      → end ≤ start + fuel
      → Runs (Keeps buffer target end) (cookie_loop fuel end start s)
  unfolding cookie_loop
  cookie_loop-Runs zero start s k within enough =
      Runs-if (ltb start end) (λ e. let no : ⊥ = ground arith in elim no [ ]) (λ e. runs k)
  cookie_loop-Runs (suc fuel) start s k within enough =
      Runs-if (ltb start end)
        (λ e. Runs-bind (cookie_round end start s) _ (cookie_round-Runs start s k within) (
          go_on-Runs start (cookie_loop fuel end)
            (λ ptr s' k' low high. cookie_loop-Runs fuel ptr s' k' high (omega arith))))
        (λ e. runs k)

Runs-some : {A : Type 0} {P : A → Type 0} (m : Run A) → Runs P m → (a : A) × (m ≡ some a) × P a
Runs-some none h = elim h [ ]
Runs-some (some a) (runs h) = (a, refl, h)

-- What a call leaves: nothing behind the counted region has changed, and the items fit the array.
pub record IsSafe (buffer : Bytes) (value_length : ℕ) (s : Fields) : Type 0 where
  pub same_length : length s.buffer ≡ length buffer
  pub same_rest : drop value_length s.buffer ≡ drop value_length buffer
  pub few : s.target_number ≤ max_variable_count

-- For any bytes of a cookie header within the buffer, and an array of at least 128 items,
-- `finalizeGenericCookieField` returns: there is no access outside of the buffer or of the array, each
-- round of its loop goes forward, nothing behind the counted region is changed, and no more than 128
-- items are counted.
pub finalize_generic_cookie_field-IsSafe :
    (target : List Item) (buffer : Bytes) (value_length : ℕ)
    → value_length ≤ length buffer
    → max_variable_count ≤ length target
    → (done : Fields) × (finalize_generic_cookie_field target buffer value_length ≡ some done)
      × IsSafe buffer value_length done
unfolding finalize_generic_cookie_field
finalize_generic_cookie_field-IsSafe target buffer value_length inside room =
    let start : Fields = record { buffer = buffer; target_number = 0; target = target } in
    let (done, e, k) = Runs-some (cookie_loop value_length value_length 0 start) (
      cookie_loop-Runs buffer target value_length inside room value_length 0 start
        (record { same_length = refl; same_rest = refl; same_items = refl; few = omega arith })
        (omega arith) (omega arith)) in
    (
      record done { target = mark done.target_number done.target },
      ap (λ m. m >>= (λ (r : Fields). some (record r { target = mark r.target_number r.target })))
          e,
      record { same_length = k.same_length; same_rest = k.same_rest; few = k.few },
    )
