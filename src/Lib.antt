-- ===== src/Lib.antt =====
-- Verification of Yunova's server: the parts that decide what a user pays and what a stranger may
-- do.
--
-- A chat or media request is charged to the user's account. src/usage.rs recovers the token
-- counts from the upstream's answer, src/quota.rs turns them into micro-quota and moves balance
-- and ledger, and src/payments.rs credits an account when the payment gateway notifies the server
-- of a paid order. src/rate_limit.rs slows down strangers, src/net_guard.rs keeps their URLs out
-- of the private network, src/agent_token.rs lets an agent spend its user's quota, src/invites.rs
-- rewards an invite, src/channels.rs chooses the upstream and the price of a model, src/videos.rs
-- and src/images.rs charge and refund by that price, src/workflows.rs checks a graph of nodes,
-- src/agent_session.rs passes commands and approvals between clients and an agent, whose frames
-- src/agent_rpc.rs reads, src/agent_device.rs binds a user's machines, and src/cli_auth.rs lets a
-- command line sign in by a code that a browser approves.
--
-- + Base: shared names, native numbers in tests, i64 and i128 with their wrap-around (Base.Int),
--   and the text routines of Rust that the code calls, over code points (Base.Text).
-- + Schema: TokenUsage and LedgerMeta of src/quota.rs, and rows of the tables in
--   migrations/sqlite.
-- + Db: a database action. Each SQL statement is atomic; an environment says which statements
--   fail, and what other requests do to the tables before each one. A failed statement changes
--   nothing. `quiet` is the environment without failures and other requests. Db.Rules has the
--   rules for properties that every statement keeps.
-- + Quota: Quota.Settings (get_setting and its readers, set_setting), Quota.Pricing
--   (QuotaRate::micro_quota_for_micro_usd, chat_quota_cost), Quota.Rate (QuotaRate::load),
--   Quota.LedgerMeta (its constructors), Quota.Accounts (insert_ledger, ensure_account,
--   get_balance, has_spendable_balance, try_deduct, settle, grant, set_balance), all of
--   src/quota.rs. The two deductions answer with Outcome, the code's Result<i64, i64>.
-- + Usage: extract_usage and parse_usage_object of src/usage.rs over the JSON values of
--   Usage.Json, and UsageAccumulator in Usage.Accumulator, which parses the lines of a chunk with
--   a parameter in place of serde_json::from_str. merge keeps the maximum of each counter, as the
--   comment on the type says; the comment that opens src/usage.rs speaks of the last non-zero
--   value instead.
-- + Payments: epay_sign and process_notify of src/payments.rs, cut at its comments into verify,
--   settle_notice and credit_order; the digest MD5 is a parameter. The request's parameters are a
--   list sorted by key, as the BTreeMap of the code is. Payments.Money has the amounts as text,
--   and Payments.Create is create_order, whose parameters are put in the order of their keys.
--   Payments.Outcome follows a notification through every statement that can fail.
-- + RateLimit: RateLimiter of src/rate_limit.rs, with the time as an argument; its lock makes
--   each call one step.
-- + NetGuard: src/net_guard.rs. NetGuard.Address has the standard library's addresses and tests,
--   NetGuard is_private_ip and its parts, NetGuard.Upstream validate_upstream_url and the
--   clients, where the parsers, the resolver and the builder are a record of parameters, Network.
-- + AgentToken: mint, user_for_token, revoke_by_plaintext, create_token and revoke_token of
--   src/agent_token.rs, and token_from_headers in AgentToken.Headers; the hash and the clock are
--   a record of parameters, Clock.
-- + Invites: src/invites.rs and, in welcome, the part of register in src/main.rs that follows the
--   new row of a user. The loop of ensure_code is recursion on the attempts that are left.
-- + Auth: the sessions of users in src/auth.rs, with the same Clock.
-- + Session: LiveSession of src/agent_session.rs with request, resolve_approval,
--   set_close_reason, fail_inflight and the arms of the loop in attach, and their steps in any
--   order (Session.Steps). The counter of command ids wraps around at 64 bits, so a result that
--   needs fresh ids is for runs with fewer than 2 ^ 64 commands. Session.Target has Target.
-- + Channels: src/channels.rs. Channels.Select chooses the channels of a model, Channels.Catalog
--   keeps the upstreams' model lists, Channels.Serving answers the listings (AvailabilityIndex),
--   Channels.Balance turns the order of equal channels (balance_chain, with fuel for as many
--   rounds as the chain has channels, since a round takes one at least), and Channels.Route puts
--   them together as resolve_route. Channels.Pricing stores the prices; Channels.Billing charges
--   by them, and has deduct_image_quota and refund_image_quota of src/images.rs. The answer of an
--   upstream's model list and the counters of a request's key prefix are arguments. A catalog is
--   read at one moment for a whole chain.
-- + Videos: the durations, the price, the refund of a job and its failed downloads
--   (handle_download_failure), and parse_video_range (Videos.Ranges) in src/videos.rs.
-- + Workflows: validate_graph of src/workflows.rs. Workflows.Nodes checks a node, Workflows.Graph
--   the graph, Workflows.Order is its queue (with fuel for as many rounds as there are nodes).
--   The texts of JSON values and the reading of a float are parameters, and a float is a whole
--   number of units of 2 ^ -1074.
-- + AgentRpc: src/agent_rpc.rs. The loop of JsonlDecoder::push is drain, with the buffer's length
--   as fuel: each line takes one character at least. AgentRpc.Stream and AgentRpc.Lossless have
--   its lemmas.
-- + CliAuth: src/cli_auth.rs, with the same Clock. CliAuth.Codes has the codes and the labels;
--   start tries 8 random draws, which are an argument. A poll mints by AgentToken, and handle_all
--   is a list of requests in any order. The database's order of texts is a parameter.
-- + Devices: bind_device, rename_device, revoke_device and device_for_token of
--   src/agent_device.rs; the registry is the list of the machines that are connected.
--   Devices.Handshake is attach, with the check of a password as a parameter.
-- + Approval: ApprovalMode of src/agent_approval.rs.
-- + Tests: examples of the results at concrete data.
--
-- Balances and costs are integers: the database computes sums of 64 bits, and a balance that
-- leaves them is beyond the model. Arithmetic of the code itself wraps around, as in a release
-- build. The printing of a number has the number and one as fuel, which is more than it has
-- digits.
--
-- Not modelled: HTTP handlers and listings, statistics, upstream calls, the registry of sessions,
-- the sockets of devices, the rows of channels as an administrator edits them, the runs of
-- workflows, the rest of media, storage, and the clients, which are mostly input and output
-- around the parts above.
pub mod AgentRpc
pub mod AgentToken
pub mod Approval
pub mod Auth
pub mod Base
pub mod Channels
pub mod CliAuth
pub mod Db
pub mod Devices
pub mod Invites
pub mod NetGuard
pub mod Payments
pub mod Quota
pub mod RateLimit
pub mod Schema
pub mod Session
pub mod Tests
pub mod Usage
pub mod Videos
pub mod Workflows
