-- ===== src/Retry/Tests/Claim.antt =====
-- A claim of due rows, as the database function is documented: up to the limit, the due rows are
-- taken from pending to processing and handed out.
use citrineos_ocpi.Prelude.{
  ℕ, zero, suc, ◌≤◌, ◌≡◌, refl, some, List, [], ◌∷◌, arith, length, if◌then◌else◌,
}
use citrineos_ocpi.Retry.Queue.{Item, Row, Table, processing, is_due}
use citrineos_ocpi.Retry.Queue.Keys.{keys, ids}
use citrineos_ocpi.Retry.Worker.Keyed.{Claims}

abbrev taken : ℕ → Row → Row
taken now r = record r { status = processing; locked_at = some now; updated_at = now }

unfoldable pub claim_due : ℕ → ℕ → Table → List Item × Table
claim_due now limit [] = ([], [])
claim_due now zero (r ∷ t) = ([], r ∷ t)
claim_due now (suc limit) (r ∷ t) =
    let (items, rest) = claim_due now (if is_due now r then limit else suc limit) t in
    if is_due now r then (r.item ∷ items, taken now r ∷ rest) else (items, r ∷ rest)

claim-keys : (now limit : ℕ) (t : Table) → keys (claim_due now limit t).1 ≡ keys t
unfolding claim_due
claim-keys now limit [] = refl
claim-keys now zero (r ∷ t) = refl
claim-keys now (suc limit) (r ∷ t) =
    ground (arith, claim-keys now limit t, claim-keys now (suc limit) t)

claim-ids : (now limit : ℕ) (t : Table) → ids (claim_due now limit t).1 ≡ ids t
unfolding claim_due
claim-ids now limit [] = refl
claim-ids now zero (r ∷ t) = refl
claim-ids now (suc limit) (r ∷ t) =
    ground (arith, claim-ids now limit t, claim-ids now (suc limit) t)

claim_limit : (now limit : ℕ) (t : Table) → length (claim_due now limit t).0 ≤ limit
unfolding claim_due
claim_limit now limit [] = omega arith
claim_limit now zero (r ∷ t) = omega arith
claim_limit now (suc limit) (r ∷ t) =
    ground (arith, claim_limit now limit t, claim_limit now (suc limit) t)

pub claim_due-Claims : Claims claim_due
claim_due-Claims = record {
  same_keys = claim-keys;
  same_ids = claim-ids;
  within_limit = claim_limit;
}
