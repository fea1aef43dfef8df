-- ===== src/Exec.antt =====
-- Asynchronous methods that change a state and may throw. What was written before a throw stays
-- written, so the state comes back beside the error too.
pub mod Keeps
use citrineos_ocpi.Prelude.{String, Option, none, some, ◌≡◌, refl, ◌⊎◌, inl, inr}

-- What a `throw` carries, as `parseError` tells the cases apart: an `Error` with its stack and its
-- message, a text, or another value with what `JSON.stringify` gives (none: it throws) and `String`.
pub data Thrown : Type 0 where
  error : Option String → String → Thrown
  text : String → Thrown
  other : Option String → String → Thrown

-- `parseError` of the retry worker, and the same expression in `broadcastToClients`.
unfoldable pub parse_error : Thrown → String
parse_error (Thrown.error (some stack) message) = stack
parse_error (Thrown.error none message) = message
parse_error (Thrown.text s) = s
parse_error (Thrown.other (some json) s) = json
parse_error (Thrown.other none s) = s

pub data Result {ℓ} (A : Type ℓ) : Type ℓ where
  ok : A → Result A
  err : Thrown → Result A

abbrev pub Exec : Type 0 → Type 0 → Type 0
Exec S A = S → Result A × S

module _ {A B : Type 0} where
  abbrev pub and_then : Result A → (A → Result B) → Result B
  and_then (ok a) f = f a
  and_then (err e) f = err e

module _ {S A B : Type 0} where
  abbrev pub continue : Result A → (A → Exec S B) → Exec S B
  continue (ok a) f s = f a s
  continue (err e) f s = (err e, s)

  infixl 10 ◌>>=◌ ◌>>◌
  abbrev pub ◌>>=◌ : Exec S A → (A → Exec S B) → Exec S B
  ◌>>=◌ m f s = continue (m s).0 f (m s).1

  abbrev pub ◌>>◌ : Exec S A → Exec S B → Exec S B
  m >> n = m >>= λ _. n

module _ {S A : Type 0} where
  abbrev pub pure : A → Exec S A
  pure a s = (ok a, s)

  abbrev pub throw : Thrown → Exec S A
  throw e s = (err e, s)

  abbrev pub on_error : Result A → (Thrown → Exec S A) → Exec S A
  on_error (ok a) h s = (ok a, s)
  on_error (err e) h s = h e s

  -- try { m } catch (e) { h(e) }
  abbrev pub catch : Exec S A → (Thrown → Exec S A) → Exec S A
  catch m h s = on_error (m s).0 h (m s).1

pub Result-cases :
    {A : Type 0} (r : Result A) → ((a : A) × (r ≡ ok a)) ⊎ ((e : Thrown) × (r ≡ err e))
Result-cases (ok a) = inl (a, refl)
Result-cases (err e) = inr (e, refl)
