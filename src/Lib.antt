-- ===== src/Lib.antt =====
-- Verification of the core of SignalScope: a service that ingests documents from sources, queues
-- work on them for workers, and shows them to the members of organizations.
--
-- The program keeps its state in one database. Here a table is a list of rows, newest first where
-- that matters, a query is a function on lists (Shared/Rows), and an operation takes the tables and
-- returns new ones. A row lock makes the operations on the rows it covers come one after another, so
-- a history is a list of operations. What raises is a value (Shared/Results), and its transaction is
-- rolled back: the tables stay as they were. UUIDs and times are natural numbers, times in the unit
-- that the module names; text is a list of code points (Shared/Text). Whatever is drawn at random
-- (tokens, UUIDs) and the clock's readings are arguments.
--
-- Parts, with the code below src/signalscope that they are about:
--   Core           core/errors.py (short_error_message) and core/leases.py.
--   Jobs           the job queue with leases that six tables share, as domain/processing/
--                  job_repository.py writes it, over the columns that a queue adds (the parameter R),
--                  and the attempt history of domain/operations/attempts.py. Jobs/Run lists the
--                  operations, the requeueing of finished jobs and the deletion of jobs with their
--                  content among them; the modules beside it hold what any sequence of them keeps.
--   Queues         the repositories of the single queues, as uses of Jobs: domain/processing,
--                  domain/ingestion, domain/claims, domain/entities, domain/events and the batches
--                  of domain/search/embedding_job_repository.py. Backlog and Pages are
--                  domain/claims/queue.py.
--   Content        the rows that lead from a chunk to its organization.
--   Tenancy        domain/tenancy/scope.py and domain/tenancy/policy.py: which content a query may
--                  show and which content a user may read, add or change.
--   Organizations  domain/organizations/service.py (members and roles) and
--                  domain/organizations/invitations.py.
--   Users          domain/users/email.py, domain/users/login_throttle.py, and the sessions and
--                  the sign in of domain/users/authentication.py.
--   Audit          domain/audit/service.py, in which Organizations records its changes.
--   Documents      domain/documents/chunking.py: how a text, and a document of sections
--                  (parsing/types.py), is split.
--   Sources        domain/sources/scheduling.py.
--   Investigations domain/investigations/access.py, domain/investigations/members.py and
--                  domain/investigations/service.py with the snapshots and references of its items;
--                  its operations in any order are Investigations/Operations.
--   Events         domain/events/model.py, domain/events/cluster.py and domain/events/linking.py.
--   Retention      domain/retention/service.py: the clean up of old audit events.
--   Restore        domain/organizations/restore_user_mapping.py, and the verification of an archive,
--                  domain/organizations/export_verification.py.
--   Api            the size limit of api/middleware.py.
--
-- Loops over rows, characters and ranges are structural recursion. The loop that makes chunks takes
-- fuel, one round for each character and one more: each round starts after the one before. The loop
-- over the pages of a backlog takes one round for each chunk and one more.
--
-- Not modelled: the HTTP routes, the command line and the web pages, which pass requests on; parsers,
-- embedding and language models, and password hashing, which are other people's code; the database
-- itself, whose constraints (primary keys, unique columns) are hypotheses where a theorem needs them;
-- backups, exports and diagnostics, which write files and reports. Workers that run at once are seen
-- only through the order in which their transactions commit, and the rows that other transactions
-- hold locked are an argument of a claim.
pub mod Shared
pub mod Core
pub mod Jobs
pub mod Content
pub mod Events
pub mod Queues
pub mod Audit
pub mod Retention
pub mod Users
pub mod Organizations
pub mod Tenancy
pub mod Documents
pub mod Sources
pub mod Investigations
pub mod Restore
pub mod Api
