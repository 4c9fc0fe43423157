-- ===== src/HttpTools/Paths.antt =====
-- `FilenameStripperOk` of src/AmmServerlib/tools/http_tools.c: the check of a path from a request. A
-- path is the bytes before its terminator; the null pointer is refused by the first line of the code.
use ammar_server.Base.{
  ℕ, zero, suc, ◌+◌, ◌-◌, ◌≤◌, ◌<◌, ◌≡◌, ◌≢◌, ◌↔◌, ◌⊎◌, refl, Bool, true, false, ◌||◌, Bytes,
  length, get_or, ltb, ◌==◌, if◌then◌else◌, inl, inr, arith, Bool-cases,
}

-- `MAX_RESOURCE_SLASHES`
abbrev pub max_resource_slashes : ℕ
max_resource_slashes = 15

-- A character below ' ' or above '~'; one above 127 is negative and so below.
unfoldable pub is_unprintable : ℕ → Bool
is_unprintable c = ltb c 32 || ltb 126 c

-- The rounds of the loop from the character at `i` down to the one at 1.
unfoldable pub check_backwards : Bytes → ℕ → ℕ → Bool
unfolding is_unprintable
check_backwards filename zero slashes = true
check_backwards filename (suc k) slashes =
    let c = get_or filename (suc k) 0 in
    let one_more = check_backwards filename k (slashes + 1) in
    let rest = check_backwards filename k slashes in
    if is_unprintable c
    then false
    else if c == 47
    then if ltb max_resource_slashes (slashes + 1) then false else one_more
    else if c == 92
    then false
    else if c == 46
    then if get_or filename k 0 == 46 then false else rest
    else rest

unfoldable pub filename_stripper_ok : Bytes → Bool
unfolding check_backwards
filename_stripper_ok filename =
    if length filename == 0 then false else check_backwards filename (length filename - 1) 0

-- The slashes from the character at 1 up to the one at `i`.
abbrev pub count_slashes : Bytes → ℕ → ℕ
count_slashes filename zero = 0
count_slashes filename (suc k) =
    count_slashes filename k + (if get_or filename (suc k) 0 == 47 then 1 else 0)

-- The character behind the one at `i` may stand where it stands.
abbrev pub IsAllowed : Bytes → ℕ → Type 0
IsAllowed filename i =
    (32 ≤ get_or filename (suc i) 0)
    × (get_or filename (suc i) 0 ≤ 126)
    × (get_or filename (suc i) 0 ≢ 92)
    × (get_or filename (suc i) 0 ≡ 46 → get_or filename i 0 ≢ 46)

-- One round of the loop on a character and the one before it, with the two ways on.
abbrev round : ℕ → ℕ → ℕ → Bool → Bool → Bool
round c before slashes one_more rest =
    if is_unprintable c
    then false
    else if c == 47
    then if ltb max_resource_slashes (slashes + 1) then false else one_more
    else if c == 92
    then false
    else if c == 46
    then if before == 46 then false else rest
    else rest

MayStand : ℕ → ℕ → Type 0
MayStand c before = (32 ≤ c) × (c ≤ 126) × (c ≢ 92) × (c ≡ 46 → before ≢ 46)

round_inv :
    (c before slashes : ℕ) (one_more rest : Bool)
    → round c before slashes one_more rest ≡ true
    → MayStand c before
      × (((c ≡ 47) × (slashes < max_resource_slashes) × (one_more ≡ true))
          ⊎ (((c == 47) ≡ false) × (rest ≡ true)))
unfolding MayStand is_unprintable
round_inv c before slashes one_more rest h = ground arith

round_intro :
    (c before slashes : ℕ) (one_more rest : Bool)
    → MayStand c before
    → ((c ≡ 47) × (slashes < max_resource_slashes) × (one_more ≡ true))
      ⊎ (((c == 47) ≡ false) × (rest ≡ true))
    → round c before slashes one_more rest ≡ true
unfolding MayStand is_unprintable
round_intro c before slashes one_more rest may (inl (e, l, t)) = ground arith
round_intro c before slashes one_more rest may (inr (n, t)) = ground arith

-- The characters from 1 up to `i` may stand where they stand, and have few slashes.
IsFine : Bytes → ℕ → ℕ → Type 0
IsFine filename i slashes =
    ((j : ℕ) → j < i → MayStand (get_or filename (suc j) 0) (get_or filename j 0))
    × (slashes + count_slashes filename i ≤ max_resource_slashes)

count_slash :
    (filename : Bytes) (k : ℕ)
    → get_or filename (suc k) 0 ≡ 47
    → count_slashes filename (suc k) ≡ count_slashes filename k + 1
count_slash filename k e = let z : (get_or filename (suc k) 0 == 47) ≡ true = ground arith in rw z

count_other :
    (filename : Bytes) (k : ℕ)
    → (get_or filename (suc k) 0 == 47) ≡ false
    → count_slashes filename (suc k) ≡ count_slashes filename k
count_other filename k e = rw e (omega arith)

one_more_stands :
    (filename : Bytes) (k : ℕ)
    → MayStand (get_or filename (suc k) 0) (get_or filename k 0)
    → ((j : ℕ) → j < k → MayStand (get_or filename (suc j) 0) (get_or filename j 0))
    → (j : ℕ) → j < suc k
    → MayStand (get_or filename (suc j) 0) (get_or filename j 0)
one_more_stands filename k may rest j l = elim (Bool-cases (j == k)) [
  | inl same ↦ let z : j ≡ k = ground arith in rw z may
  | inr other ↦ rest j (ground arith)
]

check_backwards-IsFine :
    (filename : Bytes) (i slashes : ℕ)
    → slashes ≤ max_resource_slashes
    → check_backwards filename i slashes ≡ true
    → IsFine filename i slashes
unfolding check_backwards IsFine
check_backwards-IsFine filename zero slashes few h = (λ j l. absurd (omega arith), omega arith)
check_backwards-IsFine filename (suc k) slashes few h =
    let more = check_backwards-IsFine filename k (slashes + 1) in
    let same = check_backwards-IsFine filename k slashes in
    let (may, ways) =
      round_inv (get_or filename (suc k) 0) (get_or filename k 0) slashes
        (check_backwards filename k (slashes + 1)) (check_backwards filename k slashes) h in
    elim ways [
      | inl (e, l, t) ↦
          let (stand, count) = more (omega arith) t in
          (one_more_stands filename k may stand, omega (arith, count_slash filename k e))
      | inr (n, t) ↦
          let (stand, count) = same few t in
          (one_more_stands filename k may stand, omega (arith, count_other filename k n))
    ]

IsFine-check_backwards :
    (filename : Bytes) (i slashes : ℕ)
    → IsFine filename i slashes
    → check_backwards filename i slashes ≡ true
unfolding check_backwards IsFine
IsFine-check_backwards filename zero slashes h = refl
IsFine-check_backwards filename (suc k) slashes (stand, count) =
    let more = IsFine-check_backwards filename k (slashes + 1) in
    let same = IsFine-check_backwards filename k slashes in
    round_intro (get_or filename (suc k) 0) (get_or filename k 0) slashes
      (check_backwards filename k (slashes + 1)) (check_backwards filename k slashes)
      (stand k (omega arith))
      (elim (Bool-cases (get_or filename (suc k) 0 == 47)) [
        | inl e ↦
            let z : get_or filename (suc k) 0 ≡ 47 = ground arith in
            let c = count_slash filename k z in
            inl (z, omega arith, more (λ j l. stand j (omega arith), omega arith))
        | inr n ↦
            let c = count_other filename k n in
            inr (n, same (λ j l. stand j (omega arith), omega arith))
      ])

-- A path is accepted exactly when it is not empty, every character behind the first is printable,
-- is no backslash and is no dot behind a dot, and there are at most 15 slashes behind the first
-- character.
pub filename_stripper_ok_iff :
    (filename : Bytes)
    → (filename_stripper_ok filename ≡ true) ↔ (
        (0 < length filename)
        × ((j : ℕ) → suc j < length filename → IsAllowed filename j)
        × (count_slashes filename (length filename - 1) ≤ max_resource_slashes))
unfolding filename_stripper_ok IsFine MayStand
filename_stripper_ok_iff filename = elim (Bool-cases (length filename == 0)) [
  | inl e ↦ (λ h. absurd (cc (rw e at h)), λ h. absurd (ground arith))
  | inr n ↦
      let some_there : 0 < length filename = ground arith in
      (
        λ h.
            let (stand, count) =
              check_backwards-IsFine filename (length filename - 1) 0 (omega arith) (rw n at h) in
            (some_there, λ j l. stand j (omega arith), omega arith),
        λ h. rw n (
            IsFine-check_backwards filename (length filename - 1) 0
              (λ j l. h.1 j (omega arith), omega (arith, h.2))),
      )
]

-- In an accepted path no two dots stand together, so that no part of it is the parent directory.
pub filename_stripper_ok-no_parent :
    (filename : Bytes) (i : ℕ)
    → filename_stripper_ok filename ≡ true
    → suc i < length filename
    → ¬ ((get_or filename i 0 ≡ 46) × (get_or filename (suc i) 0 ≡ 46))
filename_stripper_ok-no_parent filename i h l (first, second) =
    let allowed = ((filename_stripper_ok_iff filename).0 h).1 i l in allowed.3 second first
