-- ===== src/Lib.antt =====
-- Models of parts of the Cot web framework (the crate `cot`), and theorems about them.
--
-- The parts and their files:
-- - Graph, cot/src/utils/graph.rs, `Graph` with `toposort`. `toposort_visit` recurses on fuel, one
--   more than there are vertices: every call on the way down marks another vertex as visiting.
-- - Permutation, `apply_permutation` of the same file. The `while` loop runs on fuel, one more than
--   there are positions: every round but the last puts another position in order.
-- - Matcher, cot/src/router/path.rs. `PathMatcher::new` is Matcher/Pattern, over byte slices of
--   UTF-8 (Matcher/Slices) and the tests of the standard library on characters, which are the
--   parameter `Unicode` (Matcher/Unicode). `capture` and `reverse` are in Matcher.
-- - Router, cot/src/router.rs, whose routes hold matchers and handlers or inner routers. A handler
--   is a number. `route` and `handle` are `route_request`: which handler runs, with which path
--   parameters and name in the request. Router/Flat is the view of a router as one list,
--   and Router/Route has the constructors and the accessors of `Route`.
-- - Migrations, cot/src/db/migrations.rs. The schema statements that an operation builds are data
--   (Migrations/Schema); `MigrationEngine::run` works on a database that is the parameter
--   `Database` (Migrations/Engine), whose documented behaviour on rows is `KeepsRows`. The builders
--   of operations are Migrations/Builders, the methods of `Field` are Migrations/Fields, and
--   `MigrationEngine::new` is Migrations/Startup.
-- - Migrations/Sorter, cot/src/db/migrations/sorter.rs, which builds a `Graph` of the migrations,
--   sorts it and applies the permutation to the migrations.
-- - Postgres, cot/src/db/impl_postgres.rs and the integer casts of cot/src/db/fields.rs: values of
--   unsigned types on their way into signed columns and back, with the wrap-around written out.
-- - Generator, cot-cli/src/migration_generator.rs: Generator/Changes compares the models of the
--   application with those of the migrations, Generator/Cycles makes the operations into a migration
--   with the graph algorithms of `petgraph`, which are the parameter `Petgraph`, and
--   Generator/Processor names it. A `syn` type or item is the text of its tokens. `digits` runs on
--   fuel for ten digits, as many as a `u32` has; whether an overflow panics is an argument.
-- - Auth, cot/src/auth.rs and cot/src/auth/db.rs. Auth/Session is `AuthRequestExt`: a request is its
--   session, the user among its extensions and its database, and a step that fails keeps what was
--   changed before. The session crate and the types of a back end are the parameter `Environment`,
--   with `IsDocumented`. Auth/Passwords is `PasswordHash` over the parameter `PasswordAuth`, where a
--   salt is an argument. Auth/Database is `DatabaseUser` with its back end; the table that it queries
--   is the parameter `Users`, with `IsTable`.
-- - Expr, cot-codegen/src/expr.rs: the parser of `query!` expressions, on fuel, where more fuel than
--   there are tokens is enough, and `as_tokens`. What `syn` parses is the parameter `Syn`, with
--   `IsDocumented`; punctuation is joined to the tokens that the parser asks for.
-- - Query, cot/src/db/query.rs and cot-macros/src/query.rs: the expressions of a query, the filter, and
--   the code that `query!` makes of an expression of Expr, with what that code makes when it is run, or
--   nothing if its types do not fit: a field has its type, and its methods the bounds of their traits.
--   The crate sea_query is the parameter `SeaQuery`, whose documented reading at a row is `Reading`;
--   the values of Rust code, their types and the fields of the model are the parameter `Rust`.
-- - Params, `PathParams` of cot/src/request.rs and cot/src/request/path_params_deserializer.rs. The
--   two deserializers are `deserialize`, the accesses that they hand to a visitor are Params/Access;
--   a visitor is a record of its methods, and what the standard library parses is the parameter
--   `Std`. The crate indexmap is the parameter `IndexMap`, with `IsIndexMap`. Panics are a third
--   outcome beside `Ok` and `Err`.
-- - ErrorPage, cot/src/error_page.rs: the data of the pages for errors, panics and paths that lead
--   nowhere. Templates, the files that are included and printed numbers are the parameter `Assets`; an
--   error, a request and a configuration are what is shown of them.
-- - Project, cot/src/project.rs: the phases of the bootstrapper are `BootstrapPhase`, the associated
--   types of a phase functions of it. Project/Boot has `AppBuilder` and the steps of the
--   bootstrapper, Project/Server the start of `run_at` and the answer to a request, over a router
--   (Router), migrations (Migrations) and pages (ErrorPage). The calls that `register_apps` makes
--   are a list; `init` of an app, the connection to a database and the handlers are parameters.
-- - StaticFiles, cot/src/static_files.rs: the files of the apps of a context (Project) and the service
--   in front of another one. The guess of a file's type is a parameter.
-- - Base, texts, lists, dictionaries and tests that the parts share. A text is its list of code
--   points. A hash map is an association list, where an insert puts the new value first.
--
-- Panics are values: `panic` of a graph, the errors of `PathMatcher::new`.
--
-- Not modelled: requests, responses and handlers (types of the http crates), the database drivers
-- and the running of queries, forms, reading the configuration, middlewares, serving, writing static
-- files, the admin, the command line tools, the symbol resolver and the macros other than `query!`;
-- logging; the capacity hints of vectors and maps; the dates of a user.
pub mod Base
pub mod Auth
pub mod Graph
pub mod Permutation
pub mod Matcher
pub mod Router
pub mod Migrations
pub mod Postgres
pub mod Generator
pub mod Expr
pub mod Params
pub mod ErrorPage
pub mod Project
pub mod Query
pub mod StaticFiles
