-- ===== src/Lib.antt =====
-- Recon platform: a reconnaissance tool that runs modules against the targets of an engagement, within
-- its rules of engagement. This library models the parts that decide what is run, in which order,
-- against which target, and for whom, and the parts that turn the findings of the modules into assets,
-- the relations between them, the changes since the last scan and the CVEs that apply.
--
-- Parts, and the files of the repository that they model:
--   Registry     recon/modules/registry.py: `register`, and `resolve_order` with its `_pull`, its check of
--                the phases and its `_toposort`; Registry/Order, Registry/Fuel: the order of a run.
--   Scans        recon/orchestrator/scans.py, with the rows of recon/models/scanrun.py: the state and its
--                writes; Scans/Run: `_execute`, `_execute_inner`, `_run_one_module`; Scans/Api:
--                `start_scan`, `resume_scan`, `reap_orphans` and sequences of calls.
--   Scope        recon/core/scope.py: `extract_host`, `_host_matches_pattern`, `classify`,
--                `check_window`; Scope/Urls, Scope/Ip and Scope/Networks: Python's `urlsplit` and
--                `ipaddress`, as far as the program calls them; Scope/Ip/Print: `str` of an address.
--   Roe          recon/core/roe.py: the rules of engagement, `load_roe` with its validators (Roe/Patterns,
--                Roe/Recon); Roe/Loaded, Roe/Clean: what is sure of the rules that load; Roe/Lint:
--                `lint_roe` of recon/core/scope.py.
--   Targets      recon/modules/_targets.py: the safe forms; Targets/Resolve and Targets/Order:
--                `resolve_targets` from its raw candidates on.
--   Context      recon/modules/base.py, what a module does through `ModuleContext`: `check_alive`,
--                `add_evidence` and the other calls that write, `_tick` and `flush`; Context/Buffer: what
--                is not committed yet; Context/Progress: `progress`; Context/Reading: the queries.
--   Correlation  recon/correlation/engine.py: `_confidence`, `_interest`, `_upsert_asset`;
--                Correlation/Canon: the canonical forms of values; Correlation/Route: what one row of
--                evidence yields; Correlation/Graph: `correlate`, with the tables of assets, their
--                sources and their relations.
--   ScanDiff     recon/modules/active/scan_diff.py: `_service_key`, `_pair_changes` and the delta of `run`;
--                ScanDiff/Build: `_build_signature_set`, `_emit` and `run`.
--   Cve          recon/modules/active/cve_correlate.py (Cve/Top: the choice of the matches,
--                Cve/Correlate: `run` with its lookups), recon/orchestrator/cve_index.py (Cve/Index,
--                Cve/Refresh) and recon/models/cve.py.
--   Net          recon/orchestrator/killswitch.py (Net/KillSwitch), recon/net/backoff.py (Net/Backoff),
--                recon/net/rate_limit.py (Net/RateLimit) and recon/net/http_client.py (Net/Client:
--                `request`, `_single_request`, `_audit`).
--   Access       recon/orchestrator/auth.py, recon/orchestrator/tokens.py, recon/core/security.py.
--   Engagements  recon/orchestrator/engagements.py.
--   Journal      recon/core/audit.py (Journal/AuditLog), recon/orchestrator/events.py (Journal/EventBus).
--   Prelude      shared names; Prelude/Text: Python's `str` as code points, Prelude/Loops: loops that raise.
--
-- How they interact: a call of the API starts a task of Scans, which takes its order from Registry and
-- runs the modules one after the other. A module gets its targets from Targets and sends its requests
-- through Net; both ask Scope, which reads the rules that Roe validates. Net writes the log of
-- Journal. Access and Engagements serve the routes. A module writes its evidence through Context;
-- Correlation folds the evidence of a run into the table of assets and the relations between them.
-- ScanDiff and Cve are modules that read evidence of Context.
--
-- How the code corresponds: a table of the database is a list of records in the order of insertion, a
-- query is a search of it, an UPDATE is `update_where`. A function that raises returns a `Result` with
-- the errors of its component. A coroutine of Scans returns how it ended and the state that it left.
-- What the program does not decide is an argument: the outcome of each module and the signals of the
-- operator in between (`Environment`), the answers of the network, the joining of URLs and the random
-- choices of Net (`Config`), digests and fresh secrets of Access (`Crypto`), YAML and the digest of
-- the rules (`Loader`), the answers of the feeds and of OSV, and the floats of the backoff with their
-- order (`RateArith`, `IsRateArith`). Time is in ticks that the caller gives. An asset's type and
-- value stand for its id, which they determine; the raw data of evidence are texts by their keys; a
-- CVSS score is in tenths.
--
-- Fuel: `pull` recurs on one more than the number of registered modules and `visit` on one more than
-- the number of modules of the phase; Registry/Fuel shows that this is enough. `decimal` of Targets
-- prints five digits, which hold each port. `request` recurs on the redirects that are left. `fetch_pass`
-- recurs on a number of pages; Cve/Pages shows that one more than the number of items is enough.
-- `digits` of Scope/Ip/Print recurs on the room for digits, three for an octet.
--
-- Not modelled: the other modules and their parsers (recon/modules/passive, osint and active), the
-- reports, the analyst, the web and command line front ends, the object-relational layer, the dates
-- and references of a CVE and the index's own row of metadata, errors of the database, and everything
-- that only waits (jitter, semaphores). The order of concurrent tasks is the order of the calls.
pub mod Prelude
pub mod Registry
pub mod Scans
pub mod Scope
pub mod Targets
pub mod Net
pub mod Access
pub mod Engagements
pub mod Journal
pub mod Correlation
pub mod ScanDiff
pub mod Context
pub mod Cve
pub mod Roe
