-- ===== src/Lib.antt =====
-- Empire, a platform for running twelve-factor apps on a container scheduler.
--
-- A client calls the operations of `Empire` (empire.go): it creates an app, sets its configuration,
-- deploys an image, scales, restarts, runs one-off commands and rolls back. An operation checks its
-- message, calls a service, mostly inside a transaction of the database, and publishes an event. The
-- services (releases.go, apps.go, certs.go, configs.go, domains.go, runner.go, deployments.go, slugs.go)
-- keep their state in the database and send manifests to the scheduler. Under them are the pure parts:
-- images, sizes, Procfiles, formations, configurations and manifests.
--
-- Prelude       lists, Go's strings, maps and results, decimal numbers; nothing of the program
-- Image         pkg/image/image.go: `Decode`, `Encode`
-- Constraints   pkg/constraints/constraints.go, pkg/bytesize/bytesize.go, constraints.go
-- Procfile      procfile/procfile.go: ports, and the choice of the format
-- Processes     processes.go: processes, formations and their merge
-- Registry      registry.go: the formation that a Procfile describes; `Loop` is on its loop, `Described` on
--               the processes
-- Twelvefactor  twelvefactor/twelvefactor.go: what the scheduler is sent, the environment of a process
-- Apps          apps.go, users.go: names, the hook of the creation
-- Configs       configs.go: variables and descriptions
-- Slugs         slugs.go: the table
-- Releases      releases.go: `newSchedulerApp`, exposure, environment
-- Events        events.go: the events, their names and texts; `Streams` has the streams of events, where
--               publishers and the goroutine of `AsyncEvents` take steps in any order
-- Store         db.go, pkg/headerutil/headerutil.go and the `scope` methods: queries, and the database
-- Ranges        pkg/headerutil/headerutil.go: `ParseRange`
-- Services      the services; `Exec` has the actions; `Keeps`, `Returns`, `Ordered`, `History`,
--               `Created` and `Numbering` their rules and the lemmas on the versions of releases;
--               `Scaling` and `Allowed` are on apps.go and runner.go; `Sample`
--               is for concrete runs
-- Api           empire.go: the operations, and the theorems on sequences of calls
-- Arn           pkg/arn/arn.go: `Parse`, `String`, `ResourceID`
-- Troposphere   pkg/troposphere: JSON values, templates, `AddResource`; `Builder` is a state and error
--               monad over a template, `References` the names in a value, `Closed` and `Rules` what the
--               builders keep
-- CloudFormation  scheduler/cloudformation: `template.go` and `resources.go` are the file itself (settings
--               and names), `Containers` (task definitions), `Balancers` (load balancers) and `Builds`
--               (services, scheduled tasks and `Build`); `Stacks` has the readers of cloudformation.go;
--               `Closed`, `Distinct`, `Sorting` and `Settings` are on the template, and the children of
--               `Stacks` on its readers; `Sample` is for concrete runs
-- Scheduler     scheduler/cloudformation/cloudformation.go: submissions, restarts and removals; `Calls` has
--               the table of the stacks and the actions, `Locking` the operations on stacks under their
--               lock, with `Operations` and `Creation` on them; `Table`, `Removal`, `Submission` and `Rows`
--               are on the table
-- Auth          server/auth/auth.go and cache.go: strategies, sessions, authorizers; `Tokens` has the
--               access tokens and the requests of server/heroku/authentication.go
--
-- A Go string is the list of its bytes (`Text`), which is the list of its runes where it is ASCII. A map
-- is an association list: an insertion keeps the place of its key, and the order stands for one order in
-- which Go may range over the map. A map that may be nil is an `Option`. A Go `int` that the code parses
-- is a `ℤ` in the range of 64 bits, and an unsigned one wraps where the code converts; versions are
-- natural numbers. An error is a value of the part's own error type. A pointer to an app that an
-- operation changes is written as the changed app where it is used again.
--
-- An action of a service is a function from the world, which has the state of the database and the
-- list of the calls made outside, to its result and the world after it; what was done before a failure
-- stays done. The database (gorm and Postgres) is the record `Gorm` of `Store`, with its answers as
-- parameters; `Store.Laws` states what the program relies on, and `Store.Memory` is a database that
-- satisfies it; a statement of a transaction that has failed is refused, as Postgres does. The
-- scheduler, the event stream, the image registry, the clock, the parser of command lines
-- (internal/shellwords, a copy of another library) and the YAML decoder are the record `Outside`; the
-- float library is `Floats`; the JWT library is `Jwt` of `Auth.Tokens` and the cache of authorizations
-- is `Cache` of `Auth`. The template builder is a function of the settings, the manifest and the tags:
-- a panic of `AddResource` or of an index is an error of its own, and a container that the template
-- holds by a pointer is put again where the code changes it; the capacity of a slice of tags is not
-- modelled, so that an append never writes into another slice. Of the schedules a CRON expression is
-- modelled, the one that the program makes. One call runs after another: calls that interleave on one
-- database are not modelled, where the program relies on the lock that `Create` takes. Every recursion
-- is structural but that of the chunks of a list, which counts as many rounds as the list is long;
-- each takes an element.
--
-- The CloudFormation scheduler is modelled in the same way, with its own world: the table of the stacks
-- and the calls made. What AWS, the table and the locks answer is the record `Aws`, by the calls made
-- before; the template of a manifest and the name of its stack are fields of `Settings`. A goroutine of a
-- stack operation runs to its end before its caller goes on, and whether it had the lock in time is an
-- answer. That a caller waits for a message that nobody sends is the error `blocks`.
--
-- Not modelled: the tasks and one-off processes of the CloudFormation scheduler, its waits for
-- deployments, and the scheduler of Docker; the HTTP handlers, the custom resources of CloudFormation,
-- SAML, the migrations, the Docker registry and the commands, which are input and output or come
-- later; the streams of statuses; the JSON and SQL encodings of columns; logs and metrics.
pub mod Prelude
pub mod Image
pub mod Constraints
pub mod Procfile
pub mod Processes
pub mod Registry
pub mod Twelvefactor
pub mod Apps
pub mod Configs
pub mod Slugs
pub mod Releases
pub mod Events
pub mod Store
pub mod Services
pub mod Api
pub mod Arn
pub mod Troposphere
pub mod CloudFormation
pub mod Auth
pub mod Scheduler
pub mod Ranges
