-- ===== src/GetData/Ends.antt =====
-- What is said of a run that may crash, src/AmmServerlib/header_analysis/get_data.c.
use ammar_server.Base.{◌≡◌, refl, Bool, true, false, none, some, if◌then◌else◌, ◌>>=◌}
use ammar_server.GetData.{Run}

-- A run that crashes, or that ends with a value of which `P` holds.
pub data Ends {A : Type 0} (P : A → Type 0) : Run A → Type 0 where
  crashed : Ends P none
  ended : {a : A} → P a → Ends P (some a)

pub Ends-bind :
    {A B : Type 0} {P : A → Type 0} {Q : B → Type 0} (m : Run A) (f : A → Run B)
    → Ends P m
    → ((a : A) → P a → Ends Q (f a))
    → Ends Q (m >>= f)
Ends-bind none f h next = crashed
Ends-bind (some a) f (ended h) next = next a h

pub Ends-any : {A : Type 0} (m : Run A) → Ends (λ a. Unit) m
Ends-any none = crashed
Ends-any (some a) = ended tt

pub Ends-none : {A : Type 0} (m : Run A) → Ends (λ a. ⊥) m → m ≡ none
Ends-none none h = refl
Ends-none (some a) (ended h) = elim h [ ]

pub Ends-if :
    {A : Type 0} {P : A → Type 0} (b : Bool) {x y : Run A}
    → Ends P x
    → Ends P y
    → Ends P (if b then x else y)
Ends-if true hx hy = hx
Ends-if false hx hy = hy
