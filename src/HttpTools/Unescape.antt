-- ===== src/HttpTools/Unescape.antt =====
-- `StripHTMLCharacters_Inplace` of src/AmmServerlib/tools/http_tools.c, which replaces the escapes of a
-- path, such as "%20", within its buffer. The buffer is its bytes, the terminator and what stands behind
-- it included; an access outside of it is a crash. Characters are values of `unsigned char`: a negative
-- `char` is no hexadecimal digit.
pub mod Steps
pub mod Text
pub mod Reading
pub mod Exact
use ammar_server.Base.{
  ℕ, zero, suc, ◌+◌, ◌-◌, ◌*◌, Bool, true, false, ◌&&◌, ◌||◌, List, [], ◌∷◌, ◌++◌, Option, none,
  some, Bytes, length, get_elem?, set, ltb, leb, ◌==◌, if◌then◌else◌, ◌>>=◌,
}

-- `none` is the alarm for a character that is no digit.
unfoldable pub sub_value : ℕ → Option ℕ
sub_value c =
    if leb b'0' c && leb c b'9'
    then some (c - b'0')
    else if leb b'a' c && leb c b'f'
    then some (10 + (c - b'a'))
    else if leb b'A' c && leb c b'F'
    then some (10 + (c - b'A'))
    else none

-- The character that an escape stands for, if there is no alarm.
unfoldable pub escaped : Bool → ℕ → ℕ → Option ℕ
unfolding sub_value
escaped enable_security a b = do
  high ← sub_value a
  low ← sub_value b
  let ascii_val = high * 16 + low * 1
  if enable_security && (ltb ascii_val 32 || ltb 126 ascii_val) then none else some ascii_val

-- A run that may crash, which is `none`.
abbrev pub Run : Type 0 → Type 0
Run A = Option A

-- `filename[i]` becomes '_' on an alarm, and else the character.
unfoldable pub write_escape : Bytes → ℕ → ℕ → Option ℕ → Bytes × ℕ
write_escape filename i offset none = (set filename i b'_', offset)
write_escape filename i offset (some v) = (set filename i v, offset + 2)

-- The character at `i` is replaced, and the offset grows, if an escape starts at `i+offset`.
unfoldable pub replace_escape : Bool → ℕ → Bytes → ℕ → ℕ → Run (Bytes × ℕ)
unfolding write_escape
replace_escape enable_security len filename i offset = do
  c ← get_elem? filename (i + offset)
  let escape = do
    a ← get_elem? filename (i + offset + 1)
    b ← get_elem? filename (i + offset + 2)
    some (write_escape filename i offset (escaped enable_security a b))
  if c == b'%' && ltb (i + offset) (len - 2) then escape else some (filename, offset)

-- `if (offset!=0) { filename[i]=filename[i+offset]; }`
unfoldable pub copy_down : Bytes → ℕ → ℕ → Run Bytes
copy_down filename i zero = some filename
copy_down filename i (suc o) = do v ← get_elem? filename (i + suc o); some (set filename i v)

-- The rounds of the loop, `i` and `offset`.
unfoldable pub strip_loop : Bool → ℕ → Bytes → ℕ → ℕ → ℕ → Run (Bytes × ℕ)
unfolding replace_escape copy_down
strip_loop enable_security len filename i offset zero = some (filename, offset)
strip_loop enable_security len filename i offset (suc rounds) = do
  (replaced, shift) ← replace_escape enable_security len filename i offset
  copied ← copy_down replaced (i + 1) shift
  strip_loop enable_security len copied (i + 1) shift rounds

unfoldable pub strlen : Bytes → ℕ
strlen [] = 0
strlen (c ∷ s) = let rest = strlen s in if c == 0 then 0 else suc rest

-- `if (filename[i]=='%') { filename[i]='_'; }`
unfoldable pub mute : Bytes → ℕ → Bytes
mute filename i = elim (get_elem? filename i) [
  | none ↦ filename
  | some c ↦ if c == b'%' then set filename i b'_' else filename
]

-- The terminator is written if the text has become shorter.
unfoldable pub close_text : ℕ → Bytes × ℕ → Bytes
close_text len (filename, zero) = filename
close_text len (filename, suc o) = set filename len 0

unfoldable pub strip_long : Bool → ℕ → Bytes → Run Bytes
unfolding strip_loop close_text
strip_long enable_security len filename = do
  r ← strip_loop enable_security len filename 0 0 len
  some (close_text len r)

unfoldable pub strip_html_characters : Bool → Bytes → Run Bytes
unfolding strlen mute strip_long
strip_html_characters enable_security filename =
    let len = strlen filename in
    if len == 0
    then some filename
    else if len == 1
    then some (mute filename 0)
    else if len == 2
    then some (mute (mute filename 0) 1)
    else strip_long enable_security len filename
