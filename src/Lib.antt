-- ===== src/Lib.antt =====
-- The Python programs of a home server's repository: what runs in its cluster and what guards its
-- manifests.
--
-- apps/open-webui/config/search_provider_proxy.py is `SearchProxy`: a process with a search server
-- and a metrics server. `Exec` has its state (`Proxy`: the two counters, the cooldowns, the free
-- slots of the semaphore, and what it has read, sent and logged) and what it reads from outside
-- (`World`: the clock, the upstream, the environment); an action (`Exec`) changes the state also
-- where it raises. `Upstream` is `required` and `fetch_json`; `Results` is `concise_result`;
-- `Providers` has the three searches; `Cooldown` is `is_available` and `start_cooldown`; `Attempt`
-- is `attempt` with `record`, `record_search` and `log_attempt`; `Ordered` is `ordered_search`;
-- `Metrics` is `prometheus_metrics`; `Handler` has the two `do_GET`; `Slots` has the requests' threads
-- as steps that interleave. Locks are not modelled: each guarded section is one step of a state.
-- Times are nanoseconds. A URL is kept as its base and its parameters, so `urlencode` is left out,
-- and so are the sockets and `send_body`'s fixed headers; `start_up` is `main` up to the servers' loops.
--
-- `Json` is what `json.loads` returns, with the tests that Python makes on it; `Common` has texts,
-- lists, `sorted` and exceptions.
--
-- scripts/ci/yaml_documents.py is `YamlDocuments`: the objects of a parsed document (`Objects` says
-- which they are), the annotations for GitHub Actions, and `Loading`, `load_documents` from the run of
-- yq. The programs that call `load_documents` take its result as an argument.
--
-- scripts/ci/check-high-risk-policy.py is `HighRiskPolicy`. `Texts` has `text`, `resource_id` and
-- `finding`; `Patterns` the regular expressions and `mutable_tag`; `Containers` the generators over a
-- pod; `Pods`, `Rbac`, `Network` and `Sources` the rules, and `Normalize` what a boundary's hash leaves
-- out; `Resource` is `resource_findings`, `Detect` is `detect`, `Baseline` the baseline and `main`.
-- A set of findings is a list that is read as a set; `sorted` of a set is `sorted_set`. SHA-256,
-- `json.dumps`, `ipaddress` and the case tables of Unicode are the fields of `Library`. An exception
-- other than `ManifestError` ends the process, and is the result `raise`.
--
-- scripts/ci/validate-secrets.py is `Secrets`. `Envelopes` reads what SOPS and age write, base64 with
-- it (as Python 3.11 to 3.13 decode it); `Rules` is `load_creation_rules`; `Validate` is
-- `validate_secret`; `Scan` is the loop of `main` over the files, and `Files` has `tracked_files`,
-- `is_probably_text` and the whole run, on what git lists.
--
-- scripts/ci/validate-git-source-pins.py is `GitSourcePins`; the run of `git ls-remote` is a parameter.
--
-- scripts/ci/prepare-schema-manifest.py is `SchemaManifest`: the preparation of documents whose objects
-- are changed in place is `prepare`, and `json.dump` is a parameter; the output keeps what was written
-- before a document raises.
--
-- scripts/service_catalog.py is `ServiceCatalog`. `Checks` has the actions that append to a list of
-- errors; `Paths` and `References` the files that a descriptor names, `Names` what a name may look like;
-- `Structure` is `validate_catalog_structure`, a module for each part of a service; `Routes`,
-- `CarveOuts` and `Rendered` are the check of a rendered cluster, and `Regions` the generated regions.
-- `Documents` has the cards of the homepage and the published hostnames, `Blueprints` the documents for
-- Authentik, with `json.dumps` of a text, and `Outputs` the generated files, `render` and their check.
-- `Descriptors` is `load_catalog`, of the files that `rglob` finds, `Explain` is `explain`, and `Commands`
-- has `check`, `summary` and `main`, with the run of kubectl as an argument. `render` stops at the first
-- output whose write fails, and keeps those before it. The lines that a command prints before it raises
-- are not modelled. `allowedGroups` are texts, as the check of the structure requires before anything is rendered.
-- The file system and what the standard library decides by tables are the fields of `Repository`.
--
-- scripts/ci/validate-application-state-ownership.py is `ApplicationState`, which takes the checks of
-- `ServiceCatalog.Checks`; `Common.Substrings` is `in` on texts.
--
-- All loops are structural recursion, so that no fuel is needed; `show` of a number takes the number
-- itself as a bound of its rounds, each of which divides by ten.
--
-- Not modelled: argparse; validate-agent-guidance.py, which checks the texts for agents and which
-- no other part depends on; the tests of the scripts, the shell scripts, the manifests, the images and
-- the other scripts of scripts/ and scripts/ci/.
pub mod Common
pub mod Json
pub mod ApplicationState
pub mod GitSourcePins
pub mod HighRiskPolicy
pub mod SchemaManifest
pub mod SearchProxy
pub mod Secrets
pub mod ServiceCatalog
pub mod YamlDocuments
