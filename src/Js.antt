-- ===== src/Js.antt =====
-- Values of the source language that have no counterpart in a typed model: `undefined` and `null`
-- beside a value, and what a `throw` carries.
use citrineos_ocpi.Prelude.{ℕ, String, Bool, true, false, not, Option, none, some, str_eq}

-- The type `T | null | undefined`.
pub data Nullable {ℓ} (A : Type ℓ) : Type ℓ where
  undefined : Nullable A
  null : Nullable A
  value : A → Nullable A

module _ {ℓ} {A : Type ℓ} where
  -- a ?? b
  abbrev pub or_else : Nullable A → Nullable A → Nullable A
  or_else (value a) b = value a
  or_else undefined b = b
  or_else null b = b

  -- a ?? undefined, of which only the value is read
  abbrev pub to_option : Nullable A → Option A
  to_option (value a) = some a
  to_option undefined = none
  to_option null = none

  -- a ?? d, with a value d
  abbrev pub get_or : Option A → A → A
  get_or (some a) d = a
  get_or none d = d

-- a === b on texts that may be missing: `null` and `undefined` differ.
abbrev pub strict_eq : Nullable String → Nullable String → Bool
strict_eq undefined undefined = true
strict_eq null null = true
strict_eq (value s) (value t) = str_eq s t
strict_eq _ _ = false

-- !!s of a text that may be missing: the empty text is falsy.
abbrev pub truthy : Nullable String → Bool
truthy (value s) = not (str_eq s "")
truthy _ = false

-- !!n of a number that may be missing: zero is falsy.
abbrev pub truthy_number : Nullable ℕ → Bool
truthy_number (value (ℕ.suc n)) = true
truthy_number _ = false
