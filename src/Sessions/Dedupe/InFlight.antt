-- ===== src/Sessions/Dedupe/InFlight.antt =====
-- Broadcasts of sessions that run at the same time. `broadcastSessionDeduped` tests and marks a key
-- in one go, before its first wait; the push ends later, in any order among the others. Between
-- them the end of a transaction clears the keys that start with its id, as
-- 03_Modules/Sessions/src/index.ts does, running pushes or not.
pub mod Exclusive
pub mod Cleared
use citrineos_ocpi.Prelude.{
  ℕ, String, ◌≡◌, refl, ◌≢◌, ◌∙◌, sym, ap, Bool, true, false, ◌||◌, Option, none, some, List, [],
  ◌∷◌, arith, eq_iff, str_eq, if◌then◌else◌, ◌⧺◌, All, Distinct, map, subst, Bool-cases, inl, inr,
}
use citrineos_ocpi.Model.{HttpMethod}
use citrineos_ocpi.Sessions.Dedupe.{
  Texts, SessionBody, Dedupe, empty, has, has_prefix, remove, key, should_broadcast, mark_in_flight,
  mark_sent, mark_failed, clear,
}
use citrineos_ocpi.Sessions.Dedupe.Lifecycle.{has-add, has-remove, has-clear_set}

-- A push that has begun and not ended.
pub record Push : Type 0 where
  pub transaction_id : String
  pub partner_id : ℕ
  pub method : HttpMethod
  pub body : SessionBody

pub record Broadcasts : Type 0 where
  pub dedupe : Dedupe
  pub running : List Push

-- A broadcast begins, the running one at this place ends, well or not, or a transaction is cleared.
pub data Event : Type 0 where
  begins : Push → Event
  ends : ℕ → Bool → Event
  clears : String → Event

module _ (texts : Texts) where
  abbrev pub key_of : Push → String
  key_of p = key texts p.transaction_id p.partner_id p.method

  -- The first part of `broadcastSessionDeduped`: a duplicate returns at once.
  unfoldable pub begin : Push → Broadcasts → Broadcasts
  begin p b =
      if should_broadcast texts b.dedupe p.transaction_id p.partner_id p.method p.body
      then record {
        dedupe = mark_in_flight texts b.dedupe p.transaction_id p.partner_id p.method;
        running = p ∷ b.running;
      }
      else b

  abbrev settle : Bool → Push → Dedupe → Dedupe
  settle true p d = mark_sent texts d p.transaction_id p.partner_id p.method p.body
  settle false p d = mark_failed texts d p.transaction_id p.partner_id p.method

  -- The running push at this place ends, well or not.
  abbrev without : ℕ → List Push → List Push
  without n [] = []
  without ℕ.zero (p ∷ ps) = ps
  without (ℕ.suc n) (p ∷ ps) = p ∷ without n ps

  abbrev nth : ℕ → List Push → Option Push
  nth n [] = none
  nth ℕ.zero (p ∷ ps) = some p
  nth (ℕ.suc n) (p ∷ ps) = nth n ps

  abbrev end_found : Option Push → ℕ → Bool → Broadcasts → Broadcasts
  end_found none n ok b = b
  end_found (some p) n ok b = record {
    dedupe = settle ok p b.dedupe;
    running = without n b.running;
  }

  unfoldable pub end : ℕ → Bool → Broadcasts → Broadcasts
  end n ok b = end_found (nth n b.running) n ok b

  abbrev pub cleared : String → Broadcasts → Broadcasts
  cleared transaction_id b = record b { dedupe = clear b.dedupe transaction_id }

  unfoldable pub run : List Event → Broadcasts → Broadcasts
  unfolding begin end
  run [] b = b
  run (clears tx ∷ es) b = run es (cleared tx b)
  run (begins p ∷ es) b = run es (begin p b)
  run (ends n ok ∷ es) b = run es (end n ok b)
