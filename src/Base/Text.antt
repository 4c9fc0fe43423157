-- ===== src/Base/Text.antt =====
-- C strings, as the bytes before the terminator. Every literal of the sources is ASCII.
use Prim.Native.Nat.{ℕ}
use Prim.Native.Char.{code}
use Prim.Native.String.{String}
use mathlib.Core.Bool.{Bool, true, false, ◌&&◌}
use mathlib.Core.List.{List, [], ◌∷◌}
use mathlib.Core.Logic.{◌↔◌}
use mathlib.Core.Path.{◌≡◌, refl}
use native.Mathlib.Omega.{arith}
use ammar_server.Base.Tests.{◌==◌}

abbrev pub codes : String → List ℕ
codes String.[] = []
codes (String.◌∷◌ c s) = code c ∷ codes s

-- `strcmp(a,b)==0`
unfoldable pub strcmp : List ℕ → List ℕ → Bool
strcmp [] [] = true
strcmp [] (y ∷ b) = false
strcmp (x ∷ a) [] = false
strcmp (x ∷ a) (y ∷ b) = x == y && strcmp a b

pub strcmp_iff : (a b : List ℕ) → (strcmp a b ≡ true) ↔ (a ≡ b)
unfolding strcmp
strcmp_iff [] [] = ground arith
strcmp_iff [] (y ∷ b) = ground arith
strcmp_iff (x ∷ a) [] = ground arith
strcmp_iff (x ∷ a) (y ∷ b) = ground (arith, strcmp_iff a b)

pub strcmp_refl : (a : List ℕ) → strcmp a a ≡ true
strcmp_refl a = (strcmp_iff a a).1 refl
