-- ===== src/Tokens/Push.antt =====
-- All tokens of a tenant to a partner, page by page: `pushTokensToPartner` of
-- 00_Base/src/services/TokensService.ts, from its loop on. The partner's URL and the filter of the
-- query are settled before it.
pub mod Pages
use text.Mathlib.Text.{find?}
use citrineos_ocpi.Prelude.{
  ℕ, zero, suc, ◌+◌, ◌==◌, String, ◌⧺◌, Bool, true, false, Option, none, some, List, [], ◌∷◌, ◌++◌,
  length, take, drop, keep, if◌then◌else◌,
}
use citrineos_ocpi.Exec.{Thrown, Result, ok, err, Exec, ◌>>=◌, pure}
use citrineos_ocpi.Tokens.Data.{Token, Authorization, Joined}
use citrineos_ocpi.Tokens.Mapping.{to_dto}
use citrineos_ocpi.Tokens.Store.{Desk, TokenEnv, request, same_rows}

pub record PushSummary : Type 0 where
  pub processed : ℕ
  pub push_succeeded : ℕ
  pub push_failed : ℕ
  pub skipped_invalid : ℕ
  -- the ids of `failures`
  pub failures : List ℕ

abbrev pub nothing_pushed : PushSummary
nothing_pushed = record {
  processed = 0;
  push_succeeded = 0;
  push_failed = 0;
  skipped_invalid = 0;
  failures = [];
}

-- The rows that the query selects in its order, the relations that toDtoSender reads, and the status
-- code of the partner's answer to a token.
pub record PushEnv : Type 0 where
  pub tokens : TokenEnv
  pub selected : Authorization → Bool
  pub sender_joined : Authorization → Joined
  pub reply : Token → Result (Option ℕ)

-- String(err)
abbrev text_of : Thrown → String
text_of (Thrown.error stack message) = "Error: " ⧺ message
text_of (Thrown.text s) = s
text_of (Thrown.other json s) = s

abbrev names_issuer : Option ℕ → Bool
names_issuer none = false
names_issuer (some i) = true

-- What becomes of a row.
pub data PushResult : Type 0 where
  succeeded failed skipped : PushResult

abbrev pub after_error : Thrown → PushResult
after_error e =
    if names_issuer (find? (text_of e) "Issuer not found")
    then PushResult.skipped
    else PushResult.failed

abbrev pub after_reply : Result (Option ℕ) → PushResult
after_reply (err e) = after_error e
after_reply (ok none) = PushResult.failed
after_reply (ok (some code)) = if code == 1000 then PushResult.succeeded else PushResult.failed

abbrev pub counted : PushResult → ℕ → PushSummary → PushSummary
counted PushResult.succeeded id s = record s {
  processed = s.processed + 1;
  push_succeeded = s.push_succeeded + 1;
}
counted PushResult.failed id s = record s {
  processed = s.processed + 1;
  push_failed = s.push_failed + 1;
  failures = s.failures ++ id ∷ [];
}
counted PushResult.skipped id s = record s {
  processed = s.processed + 1;
  skipped_invalid = s.skipped_invalid + 1;
}

module _ (env : PushEnv) where
  abbrev pub reply_to : Result Token → PushResult
  reply_to (ok t) = after_reply (env.reply t)
  reply_to (err e) = after_error e

  unfoldable pub push_row : Authorization → PushResult
  push_row row = reply_to (to_dto row (env.sender_joined row))

  -- for (const auth of batch)
  unfoldable pub push_batch : List Authorization → PushSummary → PushSummary
  push_batch [] s = s
  push_batch (row ∷ rows) s = push_batch rows (counted (push_row row) row.id s)

  -- GET_AUTHORIZATIONS_PAGINATED
  unfoldable pub get_authorizations_paginated : ℕ → ℕ → Exec Desk (List Authorization)
  get_authorizations_paginated limit offset =
      request env.tokens (λ rows. take limit (drop offset (keep env.selected rows))) same_rows

  -- The rest of a round, and the next rounds.
  abbrev pub after_page :
      (ℕ → PushSummary → Exec Desk (Option PushSummary))
      → ℕ
      → ℕ
      → PushSummary
      → List Authorization
      → Exec Desk (Option PushSummary)
  after_page more limit offset s [] = pure (some s)
  after_page more limit offset s (row ∷ rows) =
      if length (row ∷ rows) == limit
      then more (offset + length (row ∷ rows)) (push_batch (row ∷ rows) s)
      else pure (some (push_batch (row ∷ rows) s))

  -- while (hasMore): none when the fuel is used up.
  unfoldable pub push_pages : ℕ → ℕ → ℕ → PushSummary → Exec Desk (Option PushSummary)
  push_pages zero limit offset s = pure none
  push_pages (suc fuel) limit offset s =
      get_authorizations_paginated limit offset
      >>= after_page (push_pages fuel limit) limit offset s

  -- One round for each row is more than enough.
  unfoldable pub push_tokens_to_partner : ℕ → ℕ → Exec Desk (Option PushSummary)
  push_tokens_to_partner offset limit d =
      push_pages (suc (length d.rows)) limit offset nothing_pushed d
