-- ===== src/Update/Scheduler.antt =====
-- The update scheduler of internal/update/scheduler.go and its state in memory (state.go); the file of
-- the state stands in Update.Announced. Times are Unix seconds and delays seconds; `rand n` is rand.Int63n(n).
use wireguide_plus.Common.{
  ℕ, ◌+◌, ◌-◌, ◌*◌, List, [], ◌∷◌, ◌++◌, Option, none, some, Bool, true, false, ◌&&◌, not, ◌==◌,
  ltb, leb, String, str_eq, any, if◌then◌else◌,
}

-- What maybeNotify reads of an UpdateInfo.
pub record UpdateInfo : Type 0 where
  pub available : Bool
  pub version : String

pub record CheckResult : Type 0 where
  pub info : Option UpdateInfo
  pub etag : String
  pub last_modified : String

-- What CheckForUpdateConditional returns: a result, or an error beside a result that may be nil.
pub data Checked : Type 0 where
  done : CheckResult → Checked
  failed : Option CheckResult → Checked

-- The answer of the release feed; `body` is what parseReleaseBody makes of it, none for an error.
pub data Response : Type 0 where
  unreachable : Response
  not_modified : String → String → Response
  refused : String → String → Response
  answered : String → String → Option UpdateInfo → Response

-- What CheckForUpdateConditional makes of an answer.
unfoldable pub read_response : Response → Checked
read_response Response.unreachable = Checked.failed none
read_response (Response.not_modified etag modified) =
    Checked.done (record { info = none; etag = etag; last_modified = modified })
read_response (Response.refused etag modified) =
    Checked.failed (some (record { info = none; etag = etag; last_modified = modified }))
read_response (Response.answered etag modified none) =
    Checked.failed (some (record { info = none; etag = etag; last_modified = modified }))
read_response (Response.answered etag modified (some i)) =
    Checked.done (record { info = some i; etag = etag; last_modified = modified })

-- The release feed: what it answers to a request with these If-None-Match and If-Modified-Since
-- headers, where an empty text stands for no header.
abbrev pub Feed : Type 0
Feed = String → String → Response

-- CheckForUpdateConditional, with the previous ETag and Last-Modified.
unfoldable pub check_for_update : Feed → String → String → Checked
unfolding read_response
check_for_update feed prev_etag prev_modified = read_response (feed prev_etag prev_modified)

pub record State : Type 0 where
  pub last_check_unix : ℕ
  pub last_seen_version : String
  pub etag : String
  pub last_modified : String
  pub dismissed_versions : List String
  pub last_error_unix : ℕ
  pub consecutive_errors : ℕ

pub record Scheduler : Type 0 where
  pub store : State
  pub last : Option CheckResult
  pub last_notified_version : String
  pub session_errors : ℕ
  -- Whether the channel holds a kick.
  pub kicked : Bool

-- NewScheduler, over a store that may have been read from disk.
abbrev pub new_scheduler : State → Scheduler
new_scheduler st = record {
  store = st;
  last = none;
  last_notified_version = "";
  session_errors = 0;
  kicked = false;
}

-- IsDismissed
unfoldable pub is_dismissed : String → State → Bool
is_dismissed v st = any (str_eq v) st.dismissed_versions

-- Dismiss
unfoldable pub dismiss : String → State → State
unfolding is_dismissed
dismiss v st =
    if str_eq v ""
    then st
    else if is_dismissed v st
    then st
    else record st { dismissed_versions = st.dismissed_versions ++ v ∷ [] }

abbrev pub or_else : String → String → String
or_else v old = if str_eq v "" then old else v

abbrev pub seen_version : Option UpdateInfo → String → String
seen_version none old = old
seen_version (some i) old = or_else i.version old

abbrev pub result_of : Checked → Option CheckResult
result_of (Checked.done r) = some r
result_of (Checked.failed r) = r

-- What recordResult makes of the persisted state.
unfoldable pub count_error : ℕ → State → State
count_error now st = record st {
  last_error_unix = now;
  consecutive_errors =
      if ltb 1000 (st.consecutive_errors + 1) then 1000 else st.consecutive_errors + 1;
}

unfoldable pub count_success : ℕ → CheckResult → State → State
count_success now r st = record st {
  last_check_unix = now;
  last_error_unix = 0;
  consecutive_errors = 0;
  etag = or_else r.etag st.etag;
  last_modified = or_else r.last_modified st.last_modified;
  last_seen_version = seen_version r.info st.last_seen_version;
}

-- recordResult
unfoldable pub record_result : ℕ → Checked → Scheduler → Scheduler
unfolding count_error count_success
record_result now (Checked.failed r) s = record s {
  last = r;
  session_errors = s.session_errors + 1;
  store = count_error now s.store;
}
record_result now (Checked.done r) s = record s {
  last = some r;
  session_errors = 0;
  store = count_success now r s.store;
}

-- Whether maybeNotify announces a version.
unfoldable pub is_new : UpdateInfo → Scheduler → Bool
unfolding is_dismissed
is_new i s =
    i.available
    && (not (str_eq i.version "")
        && (not (is_dismissed i.version s.store) && not (str_eq s.last_notified_version i.version)))

-- maybeNotify, and the version that it announces.
unfoldable pub maybe_notify : Option UpdateInfo → Scheduler → Scheduler × List String
unfolding is_new
maybe_notify none s = (s, [])
maybe_notify (some i) s =
    if is_new i s then (record s { last_notified_version = i.version }, i.version ∷ []) else (s, [])

-- What follows recordResult, in CheckNow and in the loop.
unfoldable pub notify_result : Checked → Scheduler → Scheduler × List String
unfolding maybe_notify
notify_result (Checked.done r) s = maybe_notify r.info s
notify_result (Checked.failed r) s = (s, [])

-- CheckNow
unfoldable pub check_now : ℕ → Checked → Scheduler → Scheduler × List String
unfolding record_result notify_result
check_now now c s = notify_result c (record_result now c s)

abbrev pub minute : ℕ
minute = 60

abbrev pub steady_interval : ℕ
steady_interval = 24 * 3600

abbrev pub steady_jitter : ℕ
steady_jitter = 8640

module _ (rand : ℕ → ℕ) where
  -- jitterRange
  unfoldable pub jitter_range : ℕ → ℕ → ℕ
  jitter_range low high = if leb high low then low else low + rand (high - low)

  -- jitterAround; the spread is less than the base wherever it is called.
  unfoldable pub jitter_around : ℕ → ℕ → ℕ
  jitter_around base spread = if spread == 0 then base else base + rand (2 * spread) - spread

  -- The wait after a check that failed.
  unfoldable pub retry_delay : ℕ → ℕ
  unfolding jitter_range
  retry_delay errors =
      if leb errors 1
      then jitter_range (5 * minute) (7 * minute)
      else if leb errors 4
      then jitter_range (10 * minute) (15 * minute)
      else jitter_range (25 * minute) (30 * minute)

  abbrev pub next_wait : Checked → ℕ → ℕ
  next_wait (Checked.failed r) errors = retry_delay errors
  next_wait (Checked.done r) errors = jitter_around steady_interval steady_jitter

  -- One round of the loop after its wait: the scheduler, what it announces, and the next wait.
  unfoldable pub loop_round : Bool → ℕ → Checked → Scheduler → Scheduler × List String × ℕ
  unfolding check_now jitter_around
  loop_round enabled now c s =
      if not enabled
      then (s, [], jitter_around steady_interval steady_jitter)
      else let r = record_result now c s in
        let n = notify_result c r in (n.0, n.1, next_wait c r.session_errors)

-- Kick: less than four hours after a successful check only if forced.
unfoldable pub kick : Bool → ℕ → Scheduler → Scheduler
kick force now s =
    if not force
      && (not (s.store.last_check_unix == 0) && ltb now (s.store.last_check_unix + 4 * 3600))
    then s
    else record s { kicked = true }

-- ResetNotifyMemory
unfoldable pub reset_notify_memory : Scheduler → Scheduler
reset_notify_memory s = record s { last_notified_version = "" }
