-- ===== src/Lib.antt =====
-- Master Gateway Auth: the backend of the gateway, which authenticates users, gives out tokens for one
-- of their roles, decides what a role may do and guards the calls of the platform's services. The code
-- is under backend/src, the tables are those of backend/prisma/schema.prisma.
--
-- The parts, and how they interact:
-- - Prog: a handler as a tree of atomic steps over the shared state, with the exceptions that it
--   throws as values. Between two `await`s a handler runs alone. `run` is a request that runs alone;
--   Prog/Pool lets any number of requests take turns, in any order of their steps. Prog/Keeps and
--   Prog/Moves say what each step of a program does, Prog/Runs takes a run apart, Prog/Outcomes follows
--   one part by part, Prog/Contest is about a resource that at most one of several programs can win.
-- - Db: the rows of the tables and the state, which also has the clock and the number of random
--   values that were drawn. Platform: the functions of `jose`, `argon2`, `@nestjs/jwt`, `node:crypto`
--   and the configuration, as a parameter, with what they promise. Text: JavaScript's operations on
--   texts.
-- - Token (common/auth/gateway-token.ts): `signGatewayToken` and `verifyGatewayToken`.
-- - Auth (auth/auth.service.ts): Session has `issueSessionTokens`, `permissionsForRole`,
--   `revokeTokenFamily` and `verifyRefreshToken`; Login has `login` and `selectRole`; Refresh has
--   `refresh` and `logout`; Internal has `validateInternal`. Life names the changes that a stored
--   refresh token goes through. A login yields a temporary token, the choice of a role a session of
--   two tokens and a stored row, a refresh the next session and the next row.
-- - Guards (common/auth, common/policy): the guards for the token, the roles, the permissions and the
--   policy engine, in the order in which the controllers list them.
-- - Roles (roles/roles.service.ts), Users (users/users.service.ts), Modules (modules/modules.service.ts)
--   and Permissions (permissions/permissions.service.ts): the administration, which changes the tables
--   that Auth reads. `assignModule` and `assignMenu`, and their inverses, are one definition on two
--   tables. Roles/Tables has the rows of roles and assignments; Roles/Reading and Users/Reading have
--   `findAll` and `findOne`.
-- - Menus (menus/menus.service.ts): the tree of menus, in Menus the checks, in Menus/Routes the proxy route
--   of a menu and its service, in Menus/Operations `create`, `update` and `remove`, in Menus/Tree the
--   reads and `treeForRole`; Menus/Cycles, Menus/Race and Menus/Subtree are about the two loops, Menus/Forest
--   and Menus/Orphans about the shape of the table.
-- - Ssrf (external-services/ssrf-guard.ts): which addresses the gateway may contact. `new URL`, `isIP` and
--   `lookup` are a parameter.
-- - Services (external-services/external-services.service.ts, common/utils/omit-api-key.ts): the registry
--   of external services, in Services the reads, `rotateApiKey` and `remove`, in Services/Probe the
--   probes, in Services/Registration `create`, `update` and `probeExisting`, in Services/Provision
--   `provision`, which makes the module, the menus, the routes and the assignments of a service. `fetch`
--   and `JSON.parse` are a parameter.
-- - Proxy (service-proxy/service-proxy.service.ts, external-services/service-identity.service.ts): the
--   requests that are handed on to a service by the routes of Menus and Services: Proxy/Paths matches
--   paths and builds targets, Proxy/Headers says who the gateway and the user are, Proxy/Forward has
--   `forward`; Proxy/Resolution is about the route that serves a path. The state has all that was sent; `fetch`, `Headers.set`, the coding of URI components and
--   the resolution of URLs are a parameter.
-- - Keys (common/keys/keys.service.ts): `KeysService` over the files of a disk. In the other parts the
--   keys are constants of the platform; Keys/Store is about calls and restarts.
-- - Config (config/env.validation.ts): `validateEnv`. Cleaning
--   (common/decorators/sanitize.decorator.ts): the cleaning of the texts of a request.
-- - Requests: what the controllers (auth/auth.controller.ts, users/users.controller.ts and so on) hand to
--   the services, all kinds that change the state, as one type with one handler, so that requests of
--   different kinds take turns (Prog/Schedules). Left out there are those that only read, the proxy among
--   them.
-- - Tests: a platform and a state that can be run, and the theorems at concrete inputs.
--
-- Conventions. An id is the text of a UUID. A table is the list of its rows; `findFirst` and
-- `findUnique` return the first row that fits, an update with a condition changes every row that fits,
-- a unique column that would clash is the database's error P2002, a missing row P2025. The `include` of
-- a role is a lookup by its id, which the foreign key lets succeed. An interactive transaction is one
-- step, which changes nothing if it fails. Times are numbers of milliseconds; the clock stands still
-- while a request runs alone, and pauses of any length stand between the steps of interleaved requests.
-- Numbers are natural numbers; the masks of the CIDR test are written as divisions by powers of two, on
-- numbers below 2 ^ 32. The loops of `assertNoCycle` and `collectActiveSubtreeIds` run for at most a
-- number of rounds that is given, and fail when it is used up; some number is enough
-- wherever the table of menus has no cycle, for the second one also under the condition that no two
-- menus have the same id, and none the empty one. All other recursion is structural.
--
-- An object with texts as keys is a list of entries (Prelude/Entries); where the code lets objects refer
-- to each other, as in the tree of menus, they refer by id.
--
-- Not modelled: the modes of the key files, log lines, the framework's routing, and the declarations
-- that validate requests, so that the handlers are modelled for every content of a request; the columns
-- for the times of creation and change, but for `createdAt` of the users, which is a parameter of their
-- list; an update of a user that gives null for the email, the first name or the password, which the
-- database's client or the hash refuses before anything is written; days of 23 or 25 hours in `addDays`;
-- letters whose upper or lower case is not ASCII, where the result is only compared with ASCII words;
-- the order in which lists of rows are answered, but for the users; names of parameters of a route that `Object.prototype` has; a second
-- ServiceIdentityService, under service-proxy, that nothing uses; the seed; the web client.
pub mod Prelude
pub mod Prog
pub mod Db
pub mod Platform
pub mod Proxy
pub mod Config
pub mod Keys
pub mod Cleaning
pub mod Text
pub mod Token
pub mod Auth
pub mod Guards
pub mod Roles
pub mod Users
pub mod Ssrf
pub mod Modules
pub mod Permissions
pub mod Menus
pub mod Services
pub mod Requests
pub mod Tests
