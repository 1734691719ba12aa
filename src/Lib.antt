-- ===== src/Lib.antt =====
-- Trend Engine, the backend: a library of research outputs that are drafted, approved and published to
-- client organisations, in two processes, the operators' and the clients' portal, over one database.
--
-- The parts and the files that model them:
--   Tenancy        apps/tenancy: context.py (Tenancy/Context), managers.py (Tenancy/Managers) and
--                  middleware.py with the memberships of apps/portal/models.py (Tenancy/Middleware).
--                  The two context variables are the fields of `Context`; a call takes and returns it.
--   Store          the rows of apps/outputs/models.py, apps/publication/models.py,
--                  apps/clients/models.py and apps/operations/models.py that the services share
--                  (Store/Rows), the database and its actions (Store/Database), the queries
--                  (Store/Queries). An action raises or returns; a transaction that raises leaves
--                  the database as it was.
--   Outputs        apps/outputs/services.py: draft, approve, record_expert_signoff, add_record_note.
--   Publication    apps/publication/services.py (Publication/Gate), apps/publication/delivery.py
--                  (Publication/Delivery), apps/clients/contacts.py (Publication/Recipients).
--                  Publication/Lifecycle is the relation of all the services' steps on one database;
--                  Preservation, Uniqueness, Withdrawal, Delivered and Addresses prove about them.
--   Operations     apps/operations: throttle.py (Throttle, proofs in Buckets and ClientAddress),
--                  totp.py (Totp, proofs in Replay), mfa.py (Mfa, proofs in Factor), api.py and auth.py
--                  (Api, proofs in SignIn and SignInSteps).
--   Evidence       apps/evidence/models.py (Items, Promotion), the transcript ladder of
--                  services/transcripts.py over the chains of apps/connectors/chains.py (Providers, Rungs,
--                  Ladder, proofs in Walks, Acquired and Unheard) and services/duplicates.py (Duplicates, proofs
--                  in Matched and Conversations).
--   Connectors     apps/connectors/srt.py (Srt, proofs in Flattened).
--   Enrichment     apps/enrichment/llm: pricing.py, costs.py and the call path of client.py, over the
--                  ledger of apps/operations/models.py (proofs in Estimates, Cap and
--                  Cached); extraction.py (Segments, Claims and Extract, proofs in
--                  Segmented, Anchors, Batches, Asked, Extracted, Settled and Spent); gate.py and tasks.py
--                  (Gate and Tasks, with the retry of views.py and failures.py, proofs in
--                  Decisions and Funnel).
--   Intelligence   apps/intelligence: the states of a signal in review.py (Review, proofs in Reviewed) and
--                  its score in components.py (Components, proofs in Scores).
--   Scoring        apps/scoring/signal_rank.py: the rank of a signal for a client (Rank, proofs in Ranked);
--                  recommendations.py (Recommend and Draft, proofs in Grounded, Decided and Drafts).
--   Base           lists, texts, integers and results that the parts share.
--
-- How they interact: the services read and write through the manager, which filters by the tenant that
-- the middleware bound. `publish` retires the live publication, stores a snapshot and emits a signal;
-- `deliver` reads the publication, the recipients and the recorded formats. Signing in threads the
-- session, the accounts and the cache through every endpoint. A transcript comes from the ladder, with
-- anchors that subtitles are flattened to; what is no duplicate is cut into segments and batches, and
-- every batch is a call of the model that goes through the cost guard; a recommendation rests on the
-- claims that come of it.
--
-- What is a parameter: Django's cache, login and logout, pyotp, encryption and password hashing (with
-- the laws that their documentation states), the answer of the model service, the rounding of the
-- ledger's column, what a transcript provider's connector answers to a rung, Python's hash, and the
-- points that math.log2 gives to a momentum. Random values and the clock are arguments.
--
-- Choices: a text is a list of character codes, and strip, lower, upper and isdigit act on ASCII. Primary
-- keys of the publication database come from one sequence. An audit row keeps its kind, actor and
-- context, not its sentence. A log line has no state and is left out. Money is in hundred-millionths of
-- a dollar, the ledger and the caps in millionths, and a cap of 0 is one that is not set; the calls of
-- Enrichment come one after the other. A score is an exact quotient until it is rounded, where the code
-- divides in floating point. Seconds of a transcript are in thousandths. Four loops run on fuel: the
-- cutting of a text (its length), the binary search (the number of anchors), the halving of a batch
-- (its number of segments), each proved to be enough, and the path to a canonical item (one more than the
-- number of items, since every turn adds a key to those seen). All else is structurally recursive.
--
-- Not modelled: the screens, serializers and mail wording, among them the forms of
-- apps/operations/views.py that sign an operator in by the same functions as its API; the connectors and sources; the
-- detection of signals and the matching of claims to clients; backups. Two requests inside one transaction of the database are not interleaved: each service is one step.
pub mod Base
pub mod Tenancy
pub mod Store
pub mod Outputs
pub mod Publication
pub mod Operations
pub mod Enrichment
pub mod Evidence
pub mod Connectors
pub mod Intelligence
pub mod Scoring
