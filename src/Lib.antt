-- ===== src/Lib.antt =====
-- citrineos-ocpi is the OCPI 2.2.1 server of CitrineOS: it speaks to roaming partners on behalf of
-- charge point operators, over a database that it reaches through Hasura. This library models the
-- part of it that turns transactions into sessions and CDRs, that pushes these to partners and
-- retries the pushes that failed, that stores the CDRs and the tokens that partners send, and that
-- asks partners whether a token is allowed.
--
-- The program's parts, and the files that model them:
--
--   Client           00_Base/src/trigger/BaseClientApi.ts: Request is request and getHeaders, Response
--                    is handleResponse, Broadcast is broadcastToClients, the loop over the partners
--                    that hands what failed to the outbox; Path reads a resource id off a path.
--   Cdrs             00_Base/src/broadcaster/CdrBroadcaster.ts and insertSentCdr of
--                    00_Base/src/services/CdrsService.ts, over the client.
--   Cdrs/Receive     insertCdr of the same service, on findThenUpsert of 00_Base/src/util/helpers.ts:
--                    a CDR that a partner sends. It has a state of its own, the received CDRs.
--   Sessions/Broadcaster  00_Base/src/broadcaster/SessionBroadcaster.ts, over the client and Dedupe.
--   Partner          00_Base/src/util/helpers.ts: which partner is sent what (shouldBroadcastToPartner
--                    is should_broadcast_to_partner, and so on; a method keeps its name in snake case).
--   Sessions/Dedupe  00_Base/src/services/SessionBroadcastDedupeService.ts, the memory that keeps a
--                    session from being pushed twice. Sessions/Dedupe/InFlight interleaves the
--                    broadcasts of the broadcaster, and the clear at the end of a transaction that
--                    03_Modules/Sessions/src/index.ts calls, over it.
--   Mapper           00_Base/src/mapper: Meter, Readings and Periods are getChargingPeriods of
--                    SessionMapper.ts and what it calls (the energy of a reading, the readings merged
--                    by their timestamps, the periods between them); Session the sessions and
--                    patches of the same file; Lookups BaseTransactionMapper.ts; Cdr and Batch
--                    CdrMapper.ts, for one session and for all transactions.
--   Number           the decimals of the mappers, with roundOcpiNumber and toRoundedHours of
--                    00_Base/src/util/Util.ts; Number/Integer has the integers under them.
--   Tokens           Mapping is 00_Base/src/mapper/TokensMapper.ts; Store the statements of
--                    00_Base/src/graphql/queries/token.queries.ts; Upsert, Patch, Select, RealTime and
--                    Push the methods of 00_Base/src/services/TokensService.ts. They have a state of
--                    their own, the rows of Authorizations.
--   Retry/Backoff    00_Base/src/services/gireveRetryBackoff.ts, the delay before the next attempt.
--   Retry/Queue      the table GireveBroadcastRetryQueue: one function for each statement of
--                    00_Base/src/graphql/queries/gireveBroadcastRetry.queries.ts.
--   Retry/Outbox     00_Base/src/services/GireveBroadcastRetryOutbox.ts, over that table.
--   Retry/Worker     00_Base/src/services/GireveBroadcastRetryWorker.ts, a run over the due rows, with
--                    the two methods of 00_Base/src/services/CdrsService.ts that it calls.
--   Retry/World      what surrounds outbox and worker, described below.
--   Model, Config    the enumerations and configuration keys that these read (00_Base/src/model,
--                    00_Base/src/config/ocpi.types.ts).
--   Js, Exec         undefined and null beside a value; asynchronous methods that may throw.
--   Prelude          names, Boolean tests and list lemmas that all share.
--
-- A method that awaits is a function from a state to a result and a state: a throw keeps what was
-- written before it, since the program uses no transactions. The state of the retry component is a
-- World: the queue table, the rows of sent CDRs, a log of the pushes that left for a partner, and
-- counters. The record Env holds what the program does not decide, and the counters make each
-- answer of it depend on the moment: the clock, the uuids, the answer of a partner to each push,
-- and, for each request to the database, whether it fails before or after it took effect. Every
-- theorem is for all of them unless it names a condition.
--
-- The client adds to the World, in the record Net, the requests that have left for partners, and
-- to Env, in the record ClientEnv, the answers of the partners' servers, the tables of partners and
-- what the platform computes (URLs, JSON, base64, numbers read from headers). The schema of an
-- answer is a function to an optional value. The mTLS client of a partner is an answer too: it is
-- there, or it throws. What a mapper gives for a transaction is an argument of the broadcasters.
--
-- The claim of due rows is a function of the database that the repository does not hold. It is a
-- field of Env; where a theorem needs its behaviour, that is the named condition Claims, that it
-- keeps the rows' keys and returns at most as many items as asked for, which a concrete claim is
-- shown to meet.
--
-- The mappers compute in doubles; here a number is an exact decimal, a whole number of units and a
-- scale, of which every operation that they use is exact but for the two roundings. A reading or a
-- start beyond the range of doubles, which Number() reads as an infinity, is out of the model. An
-- instant is a whole number of milliseconds, so that a text and the Date that it stands for are the
-- same. What the queries and the other mappers give for a transaction is the record Loaders.
--
-- The record TokenEnv holds for the tokens what Env holds for the retries. It has the equality of the
-- column type citext, which the theorems take as it is. A partner's reply in real time is a result
-- and the milliseconds that it takes.
--
-- Loops are structural recursion over the list that the source iterates, so no fuel is needed, but
-- for the pages of a push of tokens: one round for each row and one more are enough.
-- Elsewhere numbers are natural numbers: instants are milliseconds, delays whole seconds, and the backoff
-- multiplier a whole number (the configuration also admits a fraction). The source computes delays
-- in doubles and caps them; below the cap they are exact, and above it only the cap is used. An id
-- in the queue is the number that stands for a uuid. A JSON payload is the text that is stored.
--
-- Not modelled: logging; the mappers of locations and tariffs; the other services behind the API
-- modules of 03_Modules (locations, tariffs, commands, credentials); the event bus; generated GraphQL types; the web application of
-- apps/ocpi-monitor; start-up and migrations.
pub mod Prelude
pub mod Js
pub mod Config
pub mod Exec
pub mod Model
pub mod Retry
pub mod Sessions
pub mod Client
pub mod Cdrs
pub mod Number
pub mod Mapper
pub mod Tokens
pub mod Partner
