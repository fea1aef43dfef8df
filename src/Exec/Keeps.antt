-- ===== src/Exec/Keeps.antt =====
-- Invariants of a state under actions, one rule for each way to build an action. A rule holds
-- whatever fails: an action that throws keeps the invariant too.
use citrineos_ocpi.Prelude.{Bool, true, false, if◌then◌else◌}
use citrineos_ocpi.Exec.{
  Thrown, Result, ok, err, Exec, continue, on_error, ◌>>=◌, catch, pure, throw,
}

pub record Keeps {S A : Type 0} (P : S → Type 0) (m : Exec S A) : Type 0 where
  pub at : (s : S) → P s → P (m s).1

module _ {S : Type 0} {P : S → Type 0} where
  pub Keeps-pure : {A : Type 0} (a : A) → Keeps P (pure a)
  Keeps-pure a = record { at = λ s h. h }

  pub Keeps-throw : {A : Type 0} (e : Thrown) → Keeps {A = A} P (throw e)
  Keeps-throw e = record { at = λ s h. h }

  keeps_continue :
      {A B : Type 0} (r : Result A) (f : A → Exec S B) (s : S)
      → ((a : A) → Keeps P (f a))
      → P s
      → P (continue r f s).1
  keeps_continue (ok a) f s kf h = (kf a).at s h
  keeps_continue (err e) f s kf h = h

  pub Keeps-bind :
      {A B : Type 0} (m : Exec S A) (f : A → Exec S B)
      → Keeps P m
      → ((a : A) → Keeps P (f a))
      → Keeps P (m >>= f)
  Keeps-bind m f km kf = record { at = λ s h. keeps_continue (m s).0 f (m s).1 kf (km.at s h) }

  keeps_on_error :
      {A : Type 0} (r : Result A) (f : Thrown → Exec S A) (s : S)
      → ((e : Thrown) → Keeps P (f e))
      → P s
      → P (on_error r f s).1
  keeps_on_error (ok a) f s kf h = h
  keeps_on_error (err e) f s kf h = (kf e).at s h

  pub Keeps-catch :
      {A : Type 0} (m : Exec S A) (f : Thrown → Exec S A)
      → Keeps P m
      → ((e : Thrown) → Keeps P (f e))
      → Keeps P (catch m f)
  Keeps-catch m f km kf = record { at = λ s h. keeps_on_error (m s).0 f (m s).1 kf (km.at s h) }

  pub Keeps-if :
      {A : Type 0} (b : Bool) (m n : Exec S A)
      → Keeps P m
      → Keeps P n
      → Keeps P (if b then m else n)
  Keeps-if true m n km kn = km
  Keeps-if false m n km kn = kn

-- What holds after an action and what follows it, where the first may leave another property.
continue_to :
    {S A B : Type 0} (P Q : S → Type 0) (r : Result A) (f : A → Exec S B) (s : S)
    → ((t : S) → P t → Q t)
    → ((a : A) (t : S) → P t → Q (f a t).1)
    → P s
    → Q (continue r f s).1
continue_to P Q (ok a) f s weaken next h = next a s h
continue_to P Q (err e) f s weaken next h = weaken s h

pub bind_to :
    {S A B : Type 0} (P Q : S → Type 0) (m : Exec S A) (f : A → Exec S B) (s : S)
    → P (m s).1
    → ((t : S) → P t → Q t)
    → ((a : A) (t : S) → P t → Q (f a t).1)
    → Q ((m >>= f) s).1
bind_to P Q m f s h weaken next = continue_to P Q (m s).0 f (m s).1 weaken next h
