-- ===== src/Lib.antt =====
-- Verification of mkrepo, the service that creates repositories at GitHub, GitLab and Gitea.
--
-- The program reads a configuration, makes a provider of each of its entries, keeps accounts,
-- sessions and OAuth2 states in PostgreSQL, and answers requests: a login sends the browser to a
-- provider, the callback opens a session, the middlewares authenticate by it, and a form creates a
-- repository through the provider's client. The server is a table of routes over these handlers, and
-- the command that starts it prepares gitignores, licenses and templates first.
--
-- Files and code:
--   Base            lists, results, texts, maps and 64-bit integers as the program uses them
--   Config          internal/config/config.go; Config/Defaults and Config/Validation have its laws
--   Provider        internal/provider/*.go: Provider/Github, Gitlab and Gitea are the three
--                   implementations, Provider/Registry is NewProvidersFromConfig and the interface
--   Database        internal/gen/database/query.sql.go with sql/schema.sql: each statement is a
--                   function on the tables (CreateSession is create_session, and so on)
--   Database/Templates  the statements of the same file on templates and their versions;
--                   Search is SearchTemplates
--   Database/Db     the connection, Cleanup and GarbageCollector of internal/database/database.go
--   Database/Open   New and Close of the same file
--   Database/Steps  the statements as steps between tables; Database/Sessions is what the steps mean
--                   for the sessions, seen as a function of their IDs
--   Database/Interleaving  steps of many requests in any order; Database/Rows is about tables that
--                   hold the same rows in another order, and Handler/Blind and Server/Blind
--                   about the handlers and the routes on them
--   Database/Crypto Encrypt and Decrypt of internal/database/database.go
--   Handler         requests, answers and cookies; Handler/Action is the monad of the handlers
--   Handler/Session authenticateSession of internal/handler/auth.go; its Renewal is
--                   about a token that was replaced; Handler/Tokens is encryptTokens and
--                   decryptTokens
--   Handler/Login   Login, Logout and DeleteAccount; Handler/Callback is OAuth2Callback
--   Handler/Repo    CreateRepoFromForm of internal/handler/repo.go
--   Service         internal/service/types.go; Service/Gitignore is internal/service/gitignore.go
--   Handler/Middleware  AuthenticateMiddleware and MustAuthenticate
--   Handler/Pages   internal/handler/index.go and helpers.go, MkrepoForm, Schemas and Templates
--   Handler/Make    MkrepoCreate of internal/handler/repo.go and RegisterTemplate of template.go
--   Service/Work    the calls outside as effects on a history
--   Service/Git     cloneRepo and pushRepo of internal/service/git.go; Service/License is AddLicense
--                   of internal/service/license.go, and Service/License/Parse is ParseLicenses
--   Service/Create  CreateNewRepo, InitializeRepo and addFiles of internal/service/mkrepo.go
--   Service/Context what addFiles gives to the templates
--   Service/Template  internal/service/template.go
--   Server          NewServer of internal/server/server.go: the routes over all the handlers;
--                   Server/Mux is the matching of http.ServeMux for patterns like those of the table,
--                   and Server/Traffic runs requests and cleanups one after the other
--   Start           main, run and runServer of cmd/mkrepo/main.go, over Config, Database/Open and
--                   the files of the service; Start/Build is internal/build.go
--
-- A Go string or byte slice is a native string with one character for each byte. A time is a number
-- of microseconds since Go's zero time, as timestamptz keeps it; what a clock shows below that is cut
-- off. A map is an association list that is read by its keys. A
-- statement of SQL either answers and leaves new tables or fails and changes nothing; a connection
-- carries the faults that it will show, so that every statement may fail. A handler runs from its
-- beginning to its end, and Server/Traffic runs requests one after the other, each with remote
-- services of its own, so that a token may be valid at one request and replaced at a later one; the
-- interleaving of requests is that of their statements, which Database/Steps orders freely. The
-- tables and their constraints are those of sql/schema.sql; the migration under sql/migrations does
-- not create provider_account_id, and on what it leaves UpsertAccount fails.
--
-- Loops are structural recursion on the lists that the program walks, so no fuel is needed. Readings
-- of the clock, random bytes and identifiers are inputs. The client libraries, OAuth2, AES-GCM, YAML,
-- the file system and git are parameters; what is assumed of them is named in the hypotheses
-- (IsLawful and Fills in Database/Crypto/Laws, IsOrder in Database/Templates/Last). The calls of the
-- service outside the program are recorded in a history; a world tells for each history which call
-- succeeds.
--
-- A nil pointer in the answer of a client library is modelled where the program reads through it
-- unguarded: Namespace and Owner of a repository that was created. The paths of requests are those
-- without escaped characters. A location is the URL that a handler gives to http.Redirect.
--
-- Not modelled: logging, what the rendered pages show, the address and the timeouts of the server, the
-- flags, the embedded files and the migrations. The flags, the files and the migrations are
-- parameters; the code that is commented out in the program is left out here too.

pub mod Base
pub mod Config
pub mod Provider
pub mod Database
pub mod Handler
pub mod Service
pub mod Server
pub mod Start
