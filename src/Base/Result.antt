-- ===== src/Base/Result.antt =====
-- Python exceptions as values, and looking up the fields of a dictionary that was read from JSON.
use mathlib.Core.Path.{◌≡◌, refl}
use mathlib.Core.Logic.{◌⊎◌, inl, inr}
use Prim.Native.String.{String}
use mathlib.Core.Option.{Option, none, some}
use mathlib.Core.List.{List, [], ◌∷◌}
use pico_dome.Base.Tests.{if◌then◌else◌}
use pico_dome.Base.Text.{str_eq}

pub data Error : Type 0 where
  key_error value_error file_not_found : Error

pub data Result (A : Type 0) : Type 0 where
  ok : A → Result A
  err : Error → Result A

pub Result-cases :
    {A : Type 0} (r : Result A) → ((a : A) × (r ≡ ok a)) ⊎ ((e : Error) × (r ≡ err e))
Result-cases (ok a) = inl (a, refl)
Result-cases (err e) = inr (e, refl)

infixl 5 ◌>>=◌
abbrev pub ◌>>=◌ : {A B : Type 0} → Result A → (A → Result B) → Result B
ok a >>= f = f a
err e >>= f = err e

-- `data[key]`
abbrev pub required : {A : Type 0} → Option A → Result A
required none = err key_error
required (some a) = ok a

-- `data.get(key, default)`
abbrev pub get_or : {A : Type 0} → Option A → A → A
get_or none d = d
get_or (some a) d = a

-- `E(text)` for an enumeration: the member with that value.
unfoldable pub member {ℓ} : {A : Type ℓ} → (A → String) → List A → String → Option A
member value [] text = none
member value (a ∷ rest) text = if str_eq (value a) text then some a else member value rest text

abbrev pub or_value_error : {A : Type 0} → Option A → Result A
or_value_error none = err value_error
or_value_error (some a) = ok a
