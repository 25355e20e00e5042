-- ===== src/Lib.antt =====
-- certman issues, renews and delivers TLS certificates. A control plane keeps a queue of jobs, the
-- registered nodes and webhook subscriptions in one SQL database. A worker in the control plane, or
-- agents on other machines that sign every request, claim the jobs and report on them; a scheduler
-- queues renewals of certificates that are due.
--
-- The modules, and the files (from the repository's root) that they model:
--   Base       Boolean tests, lists over native numbers, text as Python treats it, results, and
--              stateful actions whose state survives an error, as a commit survives a raise.
--   Job        certman/services/job_service.py, JobORM and its constraints in certman/db/models.py.
--              Table has the rows and statements, Service the methods under their names. Queue, Rival,
--              Unique, Claim, Update, Enqueue, History, Once, Attempts and Listing have the proofs. JobRecord
--              copies every field of JobORM, so one record stands for both.
--   Node       certman/services/node_service.py: register_node on the node table.
--   Agent      certman/api/routes/node_agent.py and certman/security/signing.py. Platform has the
--              cryptography and json calls as parameters, State the three tables of a request, Auth
--              the opening that all signed endpoints repeat, Token the bundle tokens, Assign the
--              endpoints poll, heartbeat and subscribe, Report report_result, Bundle the checks of
--              download_bundle, Events the event stream, with its texts in Wire. They call the
--              methods of Job and the table of Node.
--   NodeAgent  certman/node_agent: Poller the registration and the poll of poller.py with its three
--              channels, Stream its reader of the event stream, Cycle the downloads and reports of one
--              cycle of agent.py, Executor executor.py with hooks/runner.py. It delivers by Delivery.
--   Api        certman/api/auth.py: the guards of the global and the entries' tokens, and in
--              Admission which requests they let through.
--   Webhook    certman/services/webhook_service.py; Store is the store of subscriptions that its
--              methods implement.
--   Scheduler  certman/scheduler/runner.py (Int and Cron the cron fields, Loop the rounds of the cron
--              mode) and certman/scheduler/jobs.py (Renewal, which enqueues by Job).
--   Delivery   K8s is certman/delivery/k8s.py: the phases of deliver_k8s_bundle and their kubectl
--              commands. Files is delivery/filesystem.py, Ingress delivery/adapters.py, Acm
--              delivery/aws_acm.py, and Service services/delivery_service.py, which chooses among them.
--   Worker     certman/worker.py: run_once, which claims and updates by Job.
--   Config     certman/config.py: entries, their domains and targets, the secrets that they need.
--   Cert       certman/services/cert_service.py: Lineage and Strict have resolve_entry_cert_name,
--              Service issue and renew with certbot_runner.py. Providers is certman/providers.py.
--   Inventory  certman/services/certificate_inventory_service.py, by Cert, on the table of Scheduler.
--
-- How the model stands for the code:
--   A table is a list of rows in the order in which the engine reads them; `first()` and ORDER BY take
--   the first of equals. A method runs in one transaction, as SQLite serialises writers, and what it
--   commits before a raise stays. The race of register_node between its query and its INSERT is a function
--   on the table; an existing row is read and written in one step.
--   Identifiers from uuid4, nonces, times and the answers of other programs are arguments. Times are
--   whole microseconds since the epoch, read once per request; seconds are their integer part. They
--   are natural numbers, as are the timestamps of requests and the configured durations, so that a
--   negative one is outside the model.
--   The rounds of a long poll are a list, each with what other sessions do to the tables meanwhile, so
--   that its theorems hold for every interleaving of whole transactions.
--   `lower` and `upper` change the ASCII letters only; `int` reads ASCII digits. `range` has fuel
--   `stop - start`, which is enough because a step is at least 1. Other loops are structural.
--   kubectl, certbot, the hooks and AWS are functions of what was run before and the command; the
--   services that the worker calls are a record of operations, each of which returns or raises.
--   HTTP answers are values: a status and a body, none where it is no JSON, or no answer. A body has the
--   shape that the code expects; what the code makes of another one is outside the model.
--   A file that cannot be written has the text of its error as a function of its path.
--
-- Not modelled: reading and encrypting the files of a bundle, the check of certificate files, the
-- metadata file of AWS ACM, the signatures that the agent makes and its loop after the first cycle,
-- the merge and the edits of the configuration, the export, the command lines, the MCP server,
-- metrics, logging, and the migrations: they are input and output around the parts above, or left for
-- later.
pub mod Base
pub mod Job
pub mod Node
pub mod Agent
pub mod Api
pub mod Webhook
pub mod Scheduler
pub mod Delivery
pub mod Worker
pub mod Config
pub mod Cert
pub mod Inventory
pub mod NodeAgent
