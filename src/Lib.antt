-- ===== src/Lib.antt =====
-- ociregistry is a pull-only, pull-through, caching distribution server for container images. A
-- request for a manifest becomes a pull request; its url is looked up in the in-memory cache; on a
-- miss the manifest and its blobs are pulled from the upstream, written under the image path and
-- added to the cache. The pruner takes manifests out again, and a blob goes when its reference
-- count reaches zero. This library models the parts that decide what is cached, served and
-- deleted.
--
-- Parts and files, with paths from the root of the repository:
-- - Base: shared names; Go strings as lists of bytes, maps as association lists (a theorem ranges
--   over every order of a map), integers, whose 64-bit wrap-around is written out where days
--   become hours.
-- - Imgpull: manifests of the package imgpull and the answers of the file system, as the fields of
--   one parameter, Env.
-- - Clock: the time, its time zone and time.ParseDuration, as the fields of another parameter.
--   Patterns: comma-separated regular expressions, which four files of the program compile and
--   match alike.
-- - PullRequest: impl/pullrequest/pullrequest.go. NewPullRequest is new_pull_request,
--   NewPullRequestFromUrl is new_pull_request_from_url, Url, UrlWithDigest, AltDockerUrl, IsLatest
--   keep their names.
-- - Serialize: impl/serialize/serialize.go and impl/helpers/helpers.go. The state is Files: the
--   directories lts, img and blobs.
-- - Cache: impl/cache/cache.go and impl/cache/prune.go. The state is Cache: the two maps of
--   manifests, the reference counts, and the files. addToCache, replaceInCache,
--   getManifestFromCache, prune, rmManifest, rmBlobs, rmBlob are one step each, since each holds
--   its locks throughout. Counts, Releases, RefCounts, Adding, Pruning, PullThenPrune, Replacing
--   prove the invariant of the counts; Loading is Load; StaleCopy and DoublePull are about two
--   ways out of it.
-- - Cache/Query: impl/cache/query.go and doPrune; Cache/Readers: its two readers, each a list and
--   the number of the next item, which Read moves on, and the loop of io.Copy that reads them.
-- - Cache/Criteria: the rest of impl/cache/prune.go. ParseCriteria is parse_criteria, calcCutoff
--   calc_cutoff, days2hrs keeps its name; RunPruner is run_pruner with tick for its goroutine;
--   Prune is prune_rest.
-- - Metrics: impl/metrics/ociregistry.go, its functions under their names; Cache/Gauge: the calls
--   of addManifestToCache and delete for the gauge of the cached manifests.
-- - Cache/Waiters: the pulls in progress. enqueuePull and signalWaiters, with GetManifest around
--   them, are a step relation between states of all goroutines. Cache/Waiters/Waiting: WaitPulls.
-- - Server: impl/ociregistry.go and impl/handlers.go with GetManifest and doPull, for a request
--   that runs alone; Server/Commands: impl/cmd_handlers.go.
-- - Config: impl/config/config.go, impl/config/merge.go and cmd/getconfig.go. Config/Upstreams:
--   ConfigFor of impl/config/config.go as config_for. Auth: impl/auth/auth.go and
--   impl/auth/ecr.go; Init, GetToken and IsInitialized keep their names, a tick of tokenRefresher
--   is refresh. Config/ServerTls: impl/globals/tls.go, with ParseTls as parse_tls. Cmdline and
--   Cmdline/Flags: impl/cmdline/parse.go.
-- - Subcmd/Prune: cmd/subcmd/prune.go, the prune of the files while no server runs;
--   Subcmd/ListCache: cmd/subcmd/listcache.go; Subcmd/Serve: the start of the server in
--   cmd/subcmd/serve.go, which runs Preload, Config/ServerTls, Auth, Cache/Criteria and Cache in
--   this order. Subcmd/Serve/Shutdown: its end, as a step relation between states of Serve, the
--   goroutine of RunPruner, the calls of CmdStop and the pulls of Cache/Waiters.
-- - Preload: impl/preload/preload.go, with LoadFromListFile as load_from_list_file, doPull as
--   do_pull and getFromCacheOrRemote under its name; Preload/Dispatch: impl/preload/load.go and
--   impl/preload/tarball.go, with Load as load_paths.
-- - Program: realMain of cmd/ociregistry.go, which runs the commands, and cmd/hello-world.go;
--   Program/Logging: impl/globals/logging.go, with ConfigureLogging as configure_logging and the
--   line about a request as log_request.
-- - LoadDriver: testing/load/driver/parse_args.go; LoadDriver/Registry:
--   testing/load/driver/registry.go, the images of the upstream by pages, with getNextPageURL as
--   get_next_page_url.
-- Server uses PullRequest and Cache, Cache uses PullRequest and Serialize, Cmdline uses Config,
-- Config uses Auth, Preload uses Config and Serialize, Subcmd uses them all.
--
-- Three loops run on fuel: that of WaitPulls, a bound of its polls, which is enough where one of
-- them finds no pull; that of io.Copy, a bound of its reads, for which one more than the reader
-- has items is enough; and that over the pages of a registry, a bound of its requests, for which
-- one more than there are pages is enough where the links come to an end. Every other loop is over
-- a list or a string, but for the digits of a number, which are by recursion on Acc. A regular
-- expression other than those of GetDigestFrom and of the readers is a parameter.
--
-- Text outside ASCII keeps its case where Go lowers it. JSON is what json.Unmarshal makes of it.
-- Which of the entries that addImageManifests adds its own loop visits is the answer of a
-- parameter, as are the failures of files. Removing the directory of the blobs, which a layer
-- without a digest names, is taken to fail, as it does while a blob is left.
--
-- Not modelled: the listener of the server, the text of the offline list, the pulls of the load
-- tester, the metrics of the runtime, and the calls for the metrics but for those of the gauge of
-- the cached manifests; what is logged but for the line about a request, the handshake of TLS, the
-- mock registry, and generated code. What package imgpull and an upstream do are parameters (Env,
-- Upstream, Client, Tarball), as are the host's files, its environment and the AWS library (Host,
-- Machine, Aws), and the client of the load tester (Http).
pub mod Base
pub mod Imgpull
pub mod Clock
pub mod Metrics
pub mod Patterns
pub mod PullRequest
pub mod Serialize
pub mod Cache
pub mod Auth
pub mod Config
pub mod Preload
pub mod Cmdline
pub mod LoadDriver
pub mod Server
pub mod Subcmd
pub mod Program
