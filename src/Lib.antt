-- ===== src/Lib.antt =====
-- wafportal: a reverse proxy with the Coraza web application firewall and an administration portal.
--
-- The program. `cmd/wafportal/main.go` reads the configuration, opens the store, compiles the rules, sets
-- up the administrator's account, and starts the servers of the portal and of the proxy. The
-- proxy takes a request, asks the rate limiter, finds the site by its host, and hands the request
-- through the firewall's middleware to the site's upstream; a report of the transaction goes to the
-- event sink, whose worker writes it to the store. The portal's API changes sites and rules in the
-- store behind a session check, and then calls `reload`, which compiles the enabled rules into new
-- engines and rebuilds the routes from the stored sites.
--
-- The files, and the code that each models.
--   Base: texts as lists of bytes, results, integers, decimal and base64 text, association lists.
--   Store: internal/store. Models has the records of models.go. Table is a table with
--     autoincremented ids and Db the database: a call takes the next outcome from `faults`, the list of
--     the driver's errors to come (no error once it is used up), and reads or writes the tables.
--     Settings, Sites, Rules, Events and Stats have store.go's methods under their names. Operations puts
--     the writing methods together.
--   Waf: internal/waf. Manager is manager.go. Middleware, Inspect (processRequestPhase), Summary
--     (buildEvent), Recorder (statusRecorder) and Address (splitHostPort) are middleware.go.
--   RateLimit: internal/ratelimit/ratelimit.go.
--   Proxy: internal/proxy/proxy.go.
--   Auth: internal/auth/auth.go, its cookies in Auth.Session.
--   Api: internal/api/api.go, one function per handler. Api.handle is the router with the session
--     check; Api.State has the state that the handlers share; Api.Spa is SPAHandler.
--   Config: internal/config/config.go.
--   Server: cmd/wafportal/main.go. Server.reload is the callback over the whole state, Startup is main up
--     to the listeners, with store.Open, ClientIp is clientIPFunc and EventSink is eventSink. System is
--     the process that runs then: an action is a request to the proxy, a call of the API, a round of
--     the sink's worker or a tick of the limiter's cleanup, and Reach is what the actions lead to.
--     Concurrent is the same process with requests and calls that overtake one another: each is a task,
--     whose steps take one lock or hand one statement to the database (Base.Tasks says what a task is,
--     Api.Tasks has the handlers of the API as tasks, Server.Tasks the callback), and a turn begins an action
--     or moves a task that has begun by a step. Races is a reload step by step, for two that
--     overlap. Current says what a plane has to be for a given store, Guarded what every plane is.
--     Unapplied and Live are createSite and its likes over the callback; Shutdown is waitForShutdown.
--   Tests: the theorems at concrete data.
--
-- Parameters. What other packages do is an argument: Waf.Coraza.Coraza (the engine and its
-- transactions), Proxy.Network.Net (net/url, the reverse proxy, certificates, autocert),
-- RateLimit.Buckets (golang.org/x/time/rate), Auth.Primitives.Crypto (bcrypt and HMAC) and Entropy (the
-- random source), Server.Startup.Host (files, flags and environment of the process, yaml.Unmarshal,
-- sql.Open), and in Api.Spa the embedded files and the file server. What is relied on of them are the
-- hypotheses Refills (a bucket left alone for ten minutes answers as a new one, as one of
-- golang.org/x/time/rate does where burst / rps is at most 600 seconds; the configuration does not see
-- to that), KeepsBytes (Coraza's buffer of a body is empty at first, is left by the calls before the
-- body, and is appended to by ReadRequestBodyFrom) and Matches (a password matches its own hash); the
-- tests give each of them an instance.
--
-- Representation and bounds. A time is a number of nanoseconds since the epoch. Every loop is structural
-- recursion over a list or a text. A number is printed with 20 digits of fuel, enough for 64 bits, and
-- parsed as strconv does: out of range the value is clamped and marked as not valid. The window of
-- Stats is in the range of int64, whose least number is its own negation.
-- strings.ToLower and strings.TrimSpace are those of ASCII text. Ids and row counters are not bounded.
-- JSON and URL decoding have happened before a handler is called. The mutexes make each operation one
-- step; where an order of steps matters (the limiter, the event sink) it is an explicit list.
--
-- In System a handler is one action, which nothing overlaps: what is proved of Reach is of requests,
-- calls and rounds that run one after another. In Concurrent a handler is a task. In Races all routes
-- are built in one step, where the code reads each site's engine under a lock of its own. One connection to the database serves all, so
-- that a statement is one step; a step of a task depends on the shared state of its own moment alone. The
-- limiter's Allow is one step, although the bucket is asked after its mutex is left, and so is what the
-- middleware does with one request, which shares nothing until it reports its event.
--
-- A statement fails as a whole: an error in the middle of the rows, which Stats does not check for, is
-- not modelled.
--
-- In Stats a timestamp's text is taken to sort as its time does and to name its hour, equal counts stand as
-- their groups came, and the column `message`, which SQLite takes from any row of a group, is read from
-- the row that the parameter `bare` picks.
--
-- Not modelled: the listeners themselves and the signals, the router and the JSON codec, and the
-- portal's JavaScript. What time.ParseDuration makes of the window comes with the request.
pub mod Base
pub mod Store
pub mod Waf
pub mod RateLimit
pub mod Proxy
pub mod Auth
pub mod Api
pub mod Config
pub mod Server
pub mod Tests
