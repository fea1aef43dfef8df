-- ===== src/Tokens/Store/Faults.antt =====
-- What holds after a request to the table Authorizations and what follows it, whether the request
-- fails before it took effect, after it, or not at all.
use citrineos_ocpi.Prelude.{ℕ, ◌+◌, inl, inr, List}
use citrineos_ocpi.Exec.{Exec, ◌>>=◌}
use citrineos_ocpi.Retry.World.{Fault-cases}
use citrineos_ocpi.Tokens.Data.{Authorization}
use citrineos_ocpi.Tokens.Store.{Desk, TokenEnv, request}

module _ {A : Type 0} (env : TokenEnv) (P : List Authorization → Type 0) where
  -- The rows after the request and its continuation have P, if those at the request and those that it
  -- leaves do, and the continuation leaves such rows.
  pub after_request :
      {B : Type 0} (read : List Authorization → A) (write : List Authorization → List Authorization)
      → (f : A → Exec Desk B) (d : Desk) → P d.rows
      → P (write d.rows)
      → ((n : ℕ) → P (f (read d.rows) (record { rows = write d.rows; requests = n })).1.rows)
      → P ((request env read write >>= f) d).1.rows
  unfolding request
  after_request read write f d old new next = elim (Fault-cases (env.fault d.requests)) [
    | inl e ↦ rw e (next (d.requests + 1))
    | inr more ↦ elim more [ inl b ↦ rw b.1 old | inr a ↦ rw a.1 new ]
  ]

  pub after_last_request :
      (read : List Authorization → A) (write : List Authorization → List Authorization) (d : Desk)
      → P d.rows
      → P (write d.rows)
      → P (request env read write d).1.rows
  unfolding request
  after_last_request read write d old new = elim (Fault-cases (env.fault d.requests)) [
    | inl e ↦ rw e new
    | inr more ↦ elim more [ inl b ↦ rw b.1 old | inr a ↦ rw a.1 new ]
  ]
