-- ===== src/Lib.antt =====
-- A verification library for Accountable, a Go service. It models the code that decides whether
-- the service may start, what it starts with and how it answers, how its secrets and its database
-- are set up, and whether its infrastructure may be deployed.
--
-- The parts and how they meet:
-- * internal/bootstrap/config.go turns a decoded configuration file into a runtime
--   configuration (Bootstrap.Config and its children: Sections and Stores hold the section
--   parsers, Parse the whole `Parse`). It uses ParseRef of internal/platform/secret/ref.go
--   (Secret.Ref) and the configuration types of internal/platform (Database, Storage, Crypto).
-- * internal/bootstrap/dependencies.go builds the dependencies of such a configuration
--   (Bootstrap.Dependencies), with the number of open database pools as its state.
-- * internal/appconfig and internal/configfile load the files of the binaries (Appconfig.Load
--   for api.go, Appconfig.Web for web.go); the result of `Parse` is a part of the API's.
-- * internal/platform/secret reads secrets: from files (Secret.File), and from a remote store
--   (Secret.Infisical, with the requests of secret_infisical.go in its Http). Both resolve lists
--   of references into maps; the calls of the store pass on the state of what it holds.
-- * internal/platform/database opens and checks the database (Database: Open, Check, Clock,
--   Schema), and internal/migration brings its schema to the version that Check wants (Migration:
--   Catalogue merges the files, Runner is runFS, Sources is Run, Command is cmd/migrate). A run of the migrations
--   is a function on the table of the schema's state, its lock and the answers to its calls, and
--   its theorem is about the verdict of Database.Check on what it leaves.
-- * cmd/bootstrap makes the roles of a new database (Databaseinit), with passwords that the remote
--   store of secrets holds or that it creates there.
-- * internal/platform/crypto and internal/platform/storage are the cryptors and the stores of
--   objects (Crypto, Storage), internal/platform/clock the clock and its health (Clock),
--   internal/platform/features the feature flag of the probe (Features) and
--   internal/platform/awsconfig the AWS configuration, with the store of secrets made of it
--   (Awsconfig).
-- * cmd/api/serve.go limits the connections of the server (Server.LimitListener): each send on
--   and receive from its semaphore channel is a step of its own, so every interleaving of
--   goroutines is a sequence of steps. Server.Readiness does the same for the main goroutine, the
--   monitor of the dependencies and the readiness that they share. Its middlewares and health
--   handler are functions on requests and response headers (Server.Middleware). The interceptors
--   of internal/server are functions on handlers with a state, in serve.go's order
--   (Server.Interceptors), and internal/modules are the handlers (Modules).
-- * internal/apierror makes the errors of the server, with a problem detail in each (Apierror).
-- * cmd/webconfig publishes the web configuration (Webconfig), over a file system that is a
--   function from paths to files.
-- * internal/tofupolicy/policy.go and cmd/tofupolicy check saved OpenTofu plans (Policy: Accounts,
--   Images, Check for resourceViolations, Order for sort.Slice, Evaluate).
--
-- Names follow the Go names in snake case; a Go (value, error) pair is a Result, a nil pointer or
-- nil slice is `none`, and a panic on a nil pointer or a nil interface is an error value of its own.
-- Go maps are association lists, and a map that only holds `true` is a list of keys. Signed
-- integers are a ℤ over the native numbers; Go.Durations writes out the saturation and the
-- wrap-around of time.Duration, and the sequence numbers of the probe's Stream wrap at 2^32. Byte
-- slices are lists of numbers (Bytes). Text holds the functions of strings, path/filepath and
-- regexp that the sources call, over code points; Go, Maps and Json hold the shared values.
--
-- Parameters: time.ParseDuration, url.Parse and the parsers of net and tls; encoding/json and TOML
-- decoding; files; HTTP and the encodings of the requests; PostgreSQL's answers, pgx and goose;
-- random bytes and identifiers; ciphers, the AWS SDK and the constructors of internal/platform that
-- Build calls. The laws that a theorem needs of one of them are a record beside it: Reflects and
-- Reliable of a store of secrets, GooseUp of goose, Decrypts and FillsNonce of a cipher and of random
-- bytes, Restores of the encryption SDK. The store of secrets is changed by one process at a time.
--
-- The loop of the probe's Stream runs on fuel, and fuel above the count is enough; the other loops run
-- over the slices and trees of their input.
--
-- Not modelled: the generated code under gen, the mux and the recovery of net/http and connect, the
-- constructors that only call the AWS SDK, the OpenFeature client, and the main functions, which
-- only print and exit.
pub mod Prelude
pub mod Text
pub mod Go
pub mod Maps
pub mod Json
pub mod Secret
pub mod Database
pub mod Storage
pub mod Crypto
pub mod Bootstrap
pub mod Appconfig
pub mod Policy
pub mod Server
pub mod Webconfig
pub mod Bytes
pub mod Apierror
pub mod Migration
pub mod Modules
pub mod Databaseinit
pub mod Clock
pub mod Features
pub mod Awsconfig
pub mod Tests
