-- ===== src/Lib.antt =====
-- rust-rtb-bidder: a model of the core of a real-time bidder.
--
-- A bid request runs through the stages of a pipeline (bidder-core/src/pipeline): it is validated, the
-- campaigns that suit it are retrieved from an in-memory catalog, those that the user has seen too
-- often are filtered, a pacer reserves budget for the rest, ranking picks a winner for each impression
-- and gives the other reservations back, and a response is built. The handlers decode the request, run
-- the pipeline and publish the events; a bid carries a signed address, and the exchange that calls it
-- after a win passes a gate of authentication and deduplication. The calls to Redis go through a
-- circuit breaker and are hedged; a loop feeds the load-shed rate and the latency back into the hedge
-- budget. Events go to Kafka through a publisher whose drop policy a monitor switches.
--
-- Files:
--   Base        tests, lists, machine words, and the interface of the float operations.
--   Model       bidder-core/src/model: candidates, OpenRTB request and response, BidContext. A field
--               that no modelled code reads is left out.
--   Pipeline    bidder-core/src/pipeline/mod.rs, Pipeline::execute over arbitrary stages, with the
--               clock's reading before each stage as an argument. Validation, Limit, Budget,
--               Ranking and Response are the stages request_validation.rs, candidate_limit.rs,
--               budget_pacing.rs, ranking.rs and response_build.rs (with bidder-core/src/notice.rs).
--               Answers is about runs, Accounts about the budget across the two stages that change it.
--   Pacing      bidder-core/src/pacing: check_and_reserve, release and reload of LocalBudgetPacer on
--               64-bit counters that wrap. Laws has the single calls, Spend sequences of bids.
--   Catalog     bidder-core/src/catalog/campaign_catalog.rs and types.rs and the stage
--               candidate_retrieval.rs. Eligible describes the intersection of the bitmaps, Retrieved
--               what the stage leaves. Rows has the rows and maps of catalog/loader.rs (with
--               targeting/mod.rs), Loader its build, start and refresh_loop on the rows that the
--               queries answer; Loaded and Refresh are about it.
--   Scoring     bidder-core/src/scoring and the stage scoring.rs: pick_arm with fnv1a, the cascade's
--               score_all, FeatureWeightedScorer, ScoringFeatures; Chosen is build_scorer_root of
--               bidder-server/src/main.rs. Arms, Cascade (on the lists of Entries) and Kept are about them.
--   Ml          bidder-core/src/scoring/ml.rs and build_ml of bidder-server/src/main.rs: the pool,
--               score_batch and score_all, the parity check and the construction; Watcher is the task of
--               start_watcher. Batches, Rowwise, Kept and Ready are about them, on the lists of Windows.
--   Enrichment  the stage user_enrichment.rs, bidder-core/src/cache/mod.rs and
--               bidder-server/src/segment_repo.rs; Packed is about the stored values, Segments about
--               the segments that a request gets.
--   FreqCap     bidder-core/src/frequency/mod.rs, bidder-server/src/freq_cap.rs and the stage
--               freq_cap.rs. InProcess is the cache of frequency/in_process.rs, WriteBehind its writes
--               with frequency/impression_recorder.rs and the drain of bidder-server/src/main.rs;
--               Enforced, Jammed and Recounted are about them. Counters has the workers that write the
--               counters, and Redis as an interface (Memory is an instance); Windows and Capped are
--               about what is written and how it is checked.
--   Breaker     bidder-core/src/breaker/mod.rs. An operation is split at its locks; a trace of Trace is
--               an interleaving of such parts by any number of tasks.
--   Hedge       bidder-core/src/hedge.rs: the token bucket and hedged_call. The times at which the
--               attempts end, and at which the caller drops the call, are arguments. Feedback is
--               bidder-core/src/hedge_feedback.rs.
--   Incident    bidder-core/src/kafka_incident.rs and the sampling and accounting of
--               bidder-server/src/kafka.rs. What rdkafka answers is an argument.
--   Percent     percent_encode of bidder-server/src/win_notice.rs, on the UTF-8 of a text; Decoded is an
--               independent decoder.
--   WinNotice   the rest of win_notice.rs: secret_for, sign, verify_token, check and build. Token is
--               about the tokens, Query an independent reader of queries, Url about the address.
--   Handlers    bidder-server/src/server/handlers.rs: bid, win and readiness (with
--               bidder-core/src/health.rs). Wins is about one win, Once about sequences of
--               them, Bids about one bid.
--   Adx         bidder-core/src/exchange/google_adx.rs: adx_to_internal and internal_to_adx; Named is
--               about the ads of an answer.
--   Server      timeout_middleware of bidder-server/src/server/routes.rs; Counted is about its counts.
--   Warmup      bidder-server/src/server/warmup.rs: run, warm_segment_cache and self_test. Keys is about
--               the keys that users are read back from, Warmed about the cache and the stage after it.
--   Bidder      the pipeline that bidder-server/src/main.rs puts together from the stages, on the state
--               that they share, with either capper. Runs is about the loop, Carried about what each stage
--               keeps of its candidates, Offers about the retrieval, Stages about the stages one by one,
--               Traced about whole runs.
-- The Tests beside them run the code on small inputs and apply the theorems to them.
--
-- Atomics and locked data are fields of a record that each operation takes and returns; one method is
-- one atomic step, except in the traces of the breaker. Counters are natural numbers with their
-- wrap-around written out, signed ones bit patterns. Floats are an interface without laws (FloatOps),
-- so that the theorems hold for whatever a division or a comparison gives. The roaring bitmap, JSON
-- values, HMAC and hex, the exchange adapter, the rows of the database, the runtime of the models, the
-- files and the answers of Redis are parameters; where a theorem needs what a library documents, that
-- is a hypothesis of it. Fuel stands in three places: the decimal printer has twenty digits, enough for
-- 64 bits, the loop over the batches of the model has one more than there are candidates,
-- and the loops of the warm-up have one for each user and each character.
--
-- Not modelled: the models and their runtime, the coding of JSON and protobuf, the text of the SQL
-- queries, the routing and the sockets of the HTTP server, and, everywhere, metrics, log lines and
-- tracing.
pub mod Base
pub mod Breaker
pub mod Pacing
pub mod Hedge
pub mod Percent
pub mod WinNotice
pub mod Handlers
pub mod Scoring
pub mod Ml
pub mod Enrichment
pub mod Adx
pub mod Server
pub mod Warmup
pub mod Incident
pub mod FreqCap
pub mod Catalog
pub mod Model
pub mod Pipeline
pub mod Bidder
