-- ===== src/Lib.antt =====
-- Verification of pow-gate, an nginx module that asks clients for a proof of work, and of the
-- crate under it that has no nginx in it. Paths are from the repository's root.
--
-- The program. A request comes with a decision of the operator (Decision): allow, deny, verify a
-- good bot, or challenge. A challenged client gets a signed challenge (Pow) or a grant for a
-- wait (Nojs), bound to its network and policy (Context) by HMAC tags (Mac). It answers with a
-- nonce (Target) and a signature (Proof). An answer is redeemed once, in a table that the
-- workers share (Redemption), and earns a clearance (Clearance), which later requests carry. The
-- reverse DNS of bots (HostNames) is remembered in a bounded cache (VerdictCache), next to the
-- ranges of addresses that they publish (Ranges, RangeSet, Feeds). Paths that go back to a client
-- are checked (Uri), and a captured request goes back in the page (Replay).
--
-- The nginx module puts these together. The handlers (Gate) read a request (Runtime), make its
-- context (Binding), and let it pass, answer it, or prepare a grant that a ledger has to accept
-- before its cookie is sent (Finish). The ledger is the table of the worker's zone (Redemption) or
-- a Redis server that a cluster shares: each worker has a few connections and a queue (Cluster),
-- and speaks a small protocol whose script spends a token (Redis).
--
-- The files, one for each part of the program, with their proofs in the files under them:
--   Redemption    src/pow-gate-core/src/redemption.rs, `consume` as `consume`, its loop as
--                 `scan_loop` and `settle`; src/ngx-http-pow-gate/src/redemption.rs, `consume` as
--                 `redeem` and `consume_shared`
--   Target        src/pow-gate-core/src/target.rs, the loop of the division as `long_division`
--   VerdictCache  src/pow-gate-core/src/verdict_cache.rs, the stages of `begin` as `sweep` and
--                 `admit`
--   Decision      src/pow-gate-core/src/decision.rs, the stages of `parse` as `parse_pair`,
--                 `parse_argument` and `parse_other`
--   Context       src/pow-gate-core/src/context.rs, `AddressPolicy` and `Assurance`
--   Mac           src/pow-gate-core/src/mac.rs, src/pow-gate-core/src/cookie.rs and `hex`
--   Wire          src/pow-gate-core/src/codec.rs, and the laws of base64url and HMAC
--   Clearance     src/pow-gate-core/src/clearance.rs, `with_verified_prepared` as `with_verified`
--   Uri           src/pow-gate-core/src/uri.rs
--   Nojs          src/pow-gate-core/src/nojs.rs, the stages of `verify` as `opened`, `checked`,
--                 `judged` and `timed`
--   Pow           src/pow-gate-core/src/pow.rs
--   Proof         src/pow-gate-core/src/proof.rs
--   Ranges        src/pow-gate-core/src/ranges.rs, the lists of intervals
--   RangeSet      src/pow-gate-core/src/ranges.rs, `IpRangeSet`, its CIDR parser and `contains`
--   Replay        src/pow-gate-core/src/replay.rs, the loop of `rfind_ci` as `search_down`
--   Binding       src/pow-gate-core/src/context.rs, `Scope` and `binding`
--   Redis         src/pow-gate-core/src/redis.rs, the scripts as `health_script` and
--                 `consume_script`
--   Runtime       src/ngx-http-pow-gate/src/runtime.rs, the loops of the body as `collect_all` and
--                 `read_range_loop`
--   Finish        src/ngx-http-pow-gate/src/redemption.rs, `Grant` and `finish`
--   Cluster       src/ngx-http-pow-gate/src/cluster.rs: `complete` as `release`, `pump` and
--                 `reply_to`; its loops of `write` and `read` in Cluster/Wiring, `inner`
--                 and `configure` as `parsed` in Cluster/Settings
--   Gate          the request, `Cfg` and `client_context` of src/ngx-http-pow-gate/src/runtime.rs;
--                 Gate/Session and Gate/Endpoints for src/ngx-http-pow-gate/src/engine, Gate/Pages
--                 and Gate/Endpoints for src/ngx-http-pow-gate/src/challenge.rs, Gate/Access for
--                 src/ngx-http-pow-gate/src/access.rs and src/ngx-http-pow-gate/src/replay.rs
--   HostNames     `host_matches_suffix` and `fcrdns_confirms` of src/pow-gate-core/src/ranges.rs
--   Feeds         src/pow-gate-core/src/feeds.rs, and `add_feed_json` of
--                 src/pow-gate-core/src/ranges.rs as `read_prefixes` and `merged`
--   BodyLimit     src/ngx-http-pow-gate/src/body_limit.rs, its loop as `count_chain`
--   Verifier      src/ngx-http-pow-gate/src/verifier.rs: `verifier_result`, `fcrdns_cached`, and
--                 the refresher as `refresh_source`; the parser of a block in Verifier/Block
--   Common        tests, lists, integers of 64 bits, bytes, maps, parsers and decimal digits
--
-- Bytes, characters and machine words are natural numbers, with the wrap-around of their width
-- written out; an `i64` is an integer whose sum wraps as in a release build. Text is its list of
-- bytes, and `trim` takes ASCII spaces away. A mutable table or cache is passed from call to
-- call; a critical section is one step. The loop of `rfind_ci` recurs on the number of indices
-- that are left, and the probe loop takes as fuel the number of its rounds, the length of the
-- table or 64 if that is less, and the decimal digits of a number take 20, the digits of the
-- largest word; both are all that the code does. Every function is total.
--
-- A handler is a function from the request, the configuration and the world, which is what other
-- crates and the state of the worker give in it, to an action: the response, the status, the
-- grant for the ledger, or the body that it waits for. The state machine of the cluster is a step
-- relation: an event comes with what the system calls and the clocks return in it, in any order,
-- and a job has a number in place of its address. The pump of the queue takes as fuel the length
-- of the queue, as each round takes a job from it; the loop of `replace_all` the length of the
-- text; the loops over sockets and files carry their fuel, and theorems state how much is enough.
--
-- Parameters stand for other crates: SHA-256, HMAC-SHA256, base64url, the JSON of serde, ECDSA,
-- the parser of addresses, and the random bytes. `Wire.IsWire` states what is relied on: the
-- size of a tag, that decoding undoes encoding, that the alphabet has no dot, and what fits in a
-- slice.
--
-- The commands of Redis are parameters too (`Redis.Server`); `Redis.Markers.IsServer` states what
-- is relied on: a key that is there is not set again, one that is set with seconds is there until
-- they have passed, and setting a key leaves the others and their deadlines.
--
-- Not modelled: the calls of nginx that allocate, send, parse directives and set timers; metrics
-- and logs; the configuration of a location and its merging; threads; the embedded solver, whose
-- text is an input.
pub mod Common
pub mod Redemption
pub mod Target
pub mod VerdictCache
pub mod Decision
pub mod Mac
pub mod Wire
pub mod Context
pub mod Clearance
pub mod Uri
pub mod Nojs
pub mod Pow
pub mod Proof
pub mod Ranges
pub mod RangeSet
pub mod Replay
pub mod Redis
pub mod Binding
pub mod Runtime
pub mod Finish
pub mod Cluster
pub mod Gate
pub mod HostNames
pub mod Feeds
pub mod BodyLimit
pub mod Verifier
