-- ===== src/Program/Logging.antt =====
-- impl/globals/logging.go: ConfigureLogging, with the settings of the library logrus as its state, and the
-- line that is logged about a request.
pub mod Levels
pub mod Fields
use ociregistry.Base.{
  ℕ, ◌-◌, Bool, true, false, ◌&&◌, List, [], ◌∷◌, ◌++◌, join, Option, none, some, Str, lit, map,
  str_eq, is_empty, leb, if◌then◌else◌,
}
use ociregistry.Cache.Readers.{shown_url}

-- The levels of logrus, from the least verbose on; panic, below fatal, is not used.
pub data Level : Type 0 where
  fatal error warn info debug trace : Level

-- strings.ToUpper on ASCII bytes
abbrev pub upper_byte : ℕ → ℕ
upper_byte c = if leb b'a' c && leb c b'z' then c - 32 else c

abbrev pub to_upper : Str → Str
to_upper = map upper_byte

-- xlatLogLevel
unfoldable pub xlat_log_level : Str → Level
xlat_log_level level =
    let l = to_upper level in
    if str_eq l (lit "DEBUG")
    then debug
    else if str_eq l (lit "INFO")
    then info
    else if str_eq l (lit "WARN")
    then warn
    else if str_eq l (lit "ERROR")
    then error
    else if str_eq l (lit "TRACE")
    then trace
    else fatal

-- log.GetLevel() >= log.DebugLevel
abbrev pub is_debug : Level → Bool
is_debug debug = true
is_debug trace = true
is_debug fatal = false
is_debug error = false
is_debug warn = false
is_debug info = false

-- The level and the output of logrus, and whether a line about a request has the headers.
pub record Logging : Type 0 where
  pub level : Level
  pub output : Option Str
  pub with_headers : Bool

-- ConfigureLogging; `open_fails` is os.OpenFile, and the result is whether there was no error.
unfoldable pub configure_logging : (Str → Bool) → Str → Str → Logging → Logging × Bool
configure_logging open_fails level logfile l =
    let l' = record l { level = xlat_log_level level } in
    let l'' = record l' { output = if is_empty logfile then l.output else some logfile } in
    if is_empty logfile
    then (record l'' { with_headers = if is_debug l'.level then true else l.with_headers }, true)
    else if open_fails logfile
    then (l', false)
    else (record l'' { with_headers = if is_debug l'.level then true else l.with_headers }, true)

-- What the middleware reads of a request and its response, once the handler has run.
pub record Served : Type 0 where
  pub method : Str
  pub request_uri : Str
  pub status : ℕ
  pub latency : Str
  pub host : Str
  pub real_ip : Str
  pub headers : List (Str × List Str)

-- The field of the headers: it is not there, is there and not set, or is set.
pub data HeaderField : Type 0 where
  absent unset : HeaderField
  set_to : Str → HeaderField

-- A line, with the level that it is logged at.
pub record Line : Type 0 where
  pub level : Level
  pub method : Str
  pub uri : Str
  pub status : ℕ
  pub latency : Str
  pub host : Str
  pub ip : Str
  pub hdrs : HeaderField

-- The loop over the headers.
unfoldable pub header_texts : List (Str × List Str) → List Str
header_texts [] = []
header_texts ((key, values) ∷ headers) =
    (key ++ lit ": " ++ join values (lit ",")) ∷ header_texts headers

abbrev pub status_level : ℕ → Level
status_level status = if leb 500 status then error else if leb 400 status then warn else info

-- The field flds[6]; none is an index out of range, where `flds` has six fields.
unfoldable pub header_field : Logging → List (Str × List Str) → Option HeaderField
header_field l headers =
    if is_debug l.level
    then (if l.with_headers
        then some (set_to (lit "[" ++ join (header_texts headers) (lit "; ") ++ lit "]"))
        else none)
    else some (if l.with_headers then unset else absent)

-- The function that GetEchoLoggingFunc returns, after the handler: none is a panic, and some none logs
-- nothing.
unfoldable pub log_request : Logging → Served → Option (Option Line)
log_request l req =
    if str_eq req.request_uri (lit "/health")
    then some none
    else elim (header_field l req.headers) [
      | none ↦ none
      | some hdrs ↦ some (
          some (record {
            level = status_level req.status;
            method = req.method;
            uri = shown_url req.request_uri;
            status = req.status;
            latency = req.latency;
            host = req.host;
            ip = req.real_ip;
            hdrs = hdrs;
          }))
    ]
