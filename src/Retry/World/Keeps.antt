-- ===== src/Retry/World/Keeps.antt =====
-- Invariants of the queue under the actions of the world.
use citrineos_ocpi.Prelude.{List, ◌+◌, inl, inr}
use citrineos_ocpi.Exec.{Exec}
use citrineos_ocpi.Exec.Keeps.{Keeps}
use citrineos_ocpi.Model.{ModuleId}
use citrineos_ocpi.Retry.Queue.{Table, Item}
use citrineos_ocpi.Retry.World.{Env, World, CdrRow, read_clock, request, push, Fault-cases}

-- The action keeps the predicate of the two tables: the queue and the CDRs.
abbrev pub KeepsTables : {A : Type 0} → (Table → List CdrRow → Type 0) → Exec World A → Type 0
KeepsTables P m = Keeps (λ w. P w.table w.cdrs) m

pub keeps_request_at :
    (P : Table → List CdrRow → Type 0) (env : Env) {A : Type 0} (op : World → A × World) (w : World)
    → P w.table w.cdrs
    → (let done = (op (record w { requests = w.requests + 1 })).1 in P done.table done.cdrs)
    → P (request env op w).1.table (request env op w).1.cdrs
unfolding request
keeps_request_at P env op w h k = elim (Fault-cases (env.fault w.requests)) [
  | inl f ↦ rw f k
  | inr (inl (e, f)) ↦ rw f h
  | inr (inr (e, f)) ↦ rw f k
]

module _ (P : Table → List CdrRow → Type 0) (env : Env) where
  pub Keeps-read_clock : KeepsTables P (read_clock env)
  unfolding read_clock
  Keeps-read_clock = record { at = λ w h. h }

  pub Keeps-push : (m : ModuleId) (item : Item) → KeepsTables P (push env m item)
  unfolding push
  Keeps-push m item = record { at = λ w h. h }

  pub Keeps-request :
      {A : Type 0} (op : World → A × World)
      → ((w : World) → P w.table w.cdrs → P (op w).1.table (op w).1.cdrs)
      → KeepsTables P (request env op)
  Keeps-request op k = record { at = λ w h. keeps_request_at P env op w h (k _ h) }
