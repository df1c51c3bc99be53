-- ===== src/Lib.antt =====
-- GitActionFlow: rules that turn GitHub webhooks into GitHub and Slack actions (backend/internal).
--
-- The program's parts, and the files that model them:
--
--   - webhook: a delivery is checked against its signature and stored as a row of webhook_events.
--     Webhook/Signature.antt (VerifySignature256, SignBody), Webhook/Envelope.antt (the payload's
--     envelope), Webhook/Ingest.antt (Service.Ingest), Webhook/Handler.antt (HandlePOST of
--     http/handlers/webhook.go).
--   - store: the tables and their statements. Store/Rows.antt has the rows and the database,
--     Store/Events.antt the queue of webhook events (webhook_events.go), Store/Actions.antt the
--     actions (actions.go), Store/Rules.antt and Store/Repositories.antt the rules and repositories;
--     Store/Users.antt has the users; Store/OauthStates.antt and Store/Sessions.antt are the login's
--     tables, each on its own, and Store/Logins.antt their statements on the database.
--   - rules: Rules/Engine.antt (Match and Evaluate), Rules/Validate.antt (ValidateNormalize) and
--     Rules/Service.antt (the operations behind the HTTP API).
--   - events: Events/Context.antt (the errors, the backoff and ExtractEventContext),
--     Events/Processor.antt (Validate and Process) and Events/Worker.antt (processOne and drain).
--   - actions: Actions/Execute.antt (the call of one action) and Actions/Executor.antt
--     (EnsureAndExecute).
--   - ai: Ai.antt (ValidateSuggestion), Ai/Provider.antt (New, the two providers, parseModelJSON).
--   - reposervice: Reposervice.antt (Connect and the other operations of Service).
--   - http: Http/Login.antt, Http/Cookie.antt and Http/RequireAuth.antt are the login and the check of
--     the session; Http/Activity.antt, Http/RuleApi.antt, Http/RepositoryApi.antt and Http/Health.antt
--     the other handlers; Http/RateLimit.antt and Http/Origin.antt the other middleware;
--     Http/Router.antt the routes (router.New).
--   - githubapi, slack, githuboauth: Githubapi.antt, Slack.antt and Githuboauth.antt, each over a
--     transport (Transport.antt) that answers its requests.
--   - config: Config/Load.antt, Config/Validate.antt and Config/Redact.antt. Startup.antt has
--     rewriteMigrateURL (database/migrate.go) and parseLevel (logging/logging.go).
--
-- The worker claims an event from the queue, the processor checks it and evaluates the rules of its
-- repository, and the executor stores an action for each intent and makes the calls; the outcome goes
-- back to the queue. Names are the source's, in small letters with underscores: ClaimNext is
-- claim_next. Base.antt, Json.antt and Errors.antt are shared: lists and text, JSON values, errors.
--
-- Code that uses the database is a function on a World (Store/Exec.antt): the database, the clock, and
-- the calls made so far. A statement is a function on the database that runs as one step; the
-- environment says before each statement how much time passes, whether it fails, and which rows other
-- transactions hold locked (FOR UPDATE SKIP LOCKED passes over those). A statement that fails has no
-- effect: a commit whose answer is lost is not modelled. Store/Events/History.antt models processes that run at the same time as one list of statements in any order, and
-- Store/Events/History/Life.antt the life cycle of one event in the abstract.
--
-- Constraints of the tables (backend/migrations) are part of the statements: unique delivery ids and
-- idempotency keys, foreign keys, CHECK constraints, JSONB and TEXT columns
-- (that a column refuses U+0000 is not modelled). Ids are numbers, and a new
-- id is one that no row has. Times are in microseconds. Text is a list of code points and JSON a tree;
-- the text form of JSON, HMAC-SHA256, the Unicode tables, decryption and the printing of ids are
-- parameters; so are url.Parse, time.ParseDuration, uuid.Parse, random tokens and encryption. float64 is
-- an abstract type with the operations of the rate limiter. Loops are structural: ClaimNext makes at
-- most 32 claims, as in the source, and drain as many steps as its limit says.
--
-- Not modelled: how gin serves a route, the wiring of the parts (app), the connection pool, running
-- the migrations, the log, the ticker loops of the worker and of the rate limiter, cryptography, and the
-- frontend. The executor's calls are answered by its environment, not by the clients' models.
pub mod Base
pub mod Errors
pub mod Json
pub mod Store
pub mod Rules
pub mod Reposervice
pub mod Webhook
pub mod Events
pub mod Ai
pub mod Http
pub mod Config
pub mod Transport
pub mod Startup
pub mod Githubapi
pub mod Slack
pub mod Githuboauth
pub mod Actions
pub mod Tests
