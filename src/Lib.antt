-- ===== src/Lib.antt =====
-- AutonomousIQ, a multi-tenant analytics service in Python: trackers (spreadsheets that are
-- recalculated on every edit), approvals of transformation jobs, users, teams and tickets.
--
-- How the parts interact. A request reaches a handler of apps/api, which learns the caller from a
-- token (deps.py), asks libs/access_control whether the caller may act, and reads and writes the
-- tables of libs/models in one session. The route of the trackers runs the engine of
-- libs/recalc_engine: it stores the formula with its dependencies, loads the tracker's cells, plans
-- an order of evaluation over the dependency graph, marks the cells on and behind cycles, and
-- evaluates the others through the Formula.js sidecar. apps/worker runs the jobs that
-- apps/api/approvals.py has approved. The route of the chat runs one turn of apps/planner: it
-- classifies the message, asks a model of libs/llm_provider with the tools that fit, runs the tools
-- that the model calls, and stores the message and the answer. A tool may read documents (rag.py)
-- and trackers, but a query on a dataset is only proposed, as a job that waits for its approval.
-- apps/api/documents.py stores files through libs/gcp/storage.py. The revisions of
-- migrations/versions make the tables.
--
-- Which file models which part.
--   Prelude                   shared names, tests on numbers and texts, lists
--   Recalc/Coord, Worklist    libs/recalc_engine/dependency_graph.py: coordinates and the two
--                             worklist loops, as one loop with a fifo or a lifo queue
--   Recalc/Graph              the same file: DependencyGraph.affected_frontier, plan,
--                             _cells_actually_in_a_cycle; Graph/* prove Kahn's algorithm
--   Recalc/Pattern, Parser    libs/recalc_engine/formula_parser.py: parse_dependencies
--   Recalc/Token, Syntax      libs/recalc_engine/formula_resolver.py: _tokenize, _Parser
--   Recalc/Value              the same file: _eval_node, evaluate_formula; js_bridge.evaluate
--   Recalc/Repository         libs/recalc_engine/repository.py: load_subgraph, save_cell
--   Recalc/Engine             libs/recalc_engine/engine.py: on_cell_edit, recalculate
--   Models                    libs/models: the rows, the database of a session (Database), the
--                             keys of migrations/versions (Schema)
--   Models/Session            libs/db.py: what a session has flushed and what is committed
--   Migrations                migrations/versions: the statements of the four revisions, in files
--                             named after them; what a statement is (Statements) and does (Run)
--   Access                    libs/access_control/resolve.py
--   Errors                    libs/exceptions.py and the error envelope of apps/api/main.py
--   Api/Deps                  apps/api/deps.py and libs/auth/jwt.py
--   Api/Approvals, Trackers, Users, Platform, Teams, Tickets, Auth
--                             the files of apps/api with these names
--   Api/Requests              apps/api/tenant_requests.py
--   Api/Workspaces, Documents, Ingestion, Chat
--                             the files of apps/api with these names
--   Api/Ingestion/Connectors  libs/connectors: the four connectors (Queries has their lemmas)
--   Api/Auth/Providers        libs/auth/oauth.py and oauth_login of apps/api/auth.py
--   Api/Startup               apps/api/main.py: on_startup
--   Storage                   libs/gcp/storage.py: upload_bytes, download_bytes
--   Planner/Intent            apps/planner/intent_classifier.py: classify
--   Planner/Provider          libs/llm_provider: the interface, NaiveKeywordProvider (Naive),
--                             VertexAIProvider (Vertex), get_llm_provider (Factory)
--   Planner/Rag               apps/planner/rag.py: _words, _snippet, search
--   Planner/Tools             apps/planner/tools.py: the four tools
--   Planner/Turn              apps/planner/planner.py: run_chat_turn, _dispatch
--   Worker                    apps/worker/job_runner.py: run_pending_jobs
-- The files called Examples hold the theorems at concrete inputs.
--
-- State is passed explicitly: a handler takes the database of its session and answers with a result
-- and the new database, or with an error, in which case nothing is committed. Ids and times that the
-- program draws are arguments. A table is the list of its rows in insertion order, and a query without
-- an ORDER BY is taken to answer in it. The times of messages are left out: the order by them is a
-- parameter.
--
-- Bounds and fuel. A worklist loop has fuel for the cells it starts from and every edge it can
-- follow; Kahn's loop has one step for each affected cell; the parser of n tokens has 4 n + 4. The
-- results below show that each is enough. Python's integers have no bound, and neither have those of
-- the model; a column has one or two letters, so its index is below 702.
--
-- Parameters, for code outside the repository: the sidecar with Formula.js, floats and the printing
-- of values (the record Sidecar), the signature of tokens, the hash of passwords, the redirect to an
-- OAuth provider and its profile, the answer of a model, the digest of a query, uuid.UUID and the
-- orders in which a set is iterated and messages are sorted by time (the record Library), the
-- validation of the email of a registration and a login, the buckets and the disk (the record
-- Blobs), and the drivers of the connectors (the record Drivers). The other routes take an email that
-- has been validated. Not modelled: Secret Manager, the middleware, logging, the interface of the
-- browser, and failures of the database other than its keys.
--
-- A table is in sync if every cell's depends_on is the list of the references of its formula.
pub mod Access
pub mod Api
pub mod Errors
pub mod Migrations
pub mod Models
pub mod Planner
pub mod Prelude
pub mod Recalc
pub mod Storage
pub mod Worker
