-- ===== src/Storage/History.antt =====
-- The session log of internal/storage/history.go. Times are nanoseconds; the identifiers that
-- newSessionID makes are given with the operation that records them.
use wireguide_plus.Common.{
  ℕ, zero, suc, ◌-◌, ◌+◌, ◌/◌, List, [], ◌∷◌, ◌++◌, Option, none, some, Bool, true, false, ◌&&◌,
  ◌||◌, not, ◌==◌, ltb, leb, String, str_eq, is_none, is_some, length, if◌then◌else◌,
}
pub mod Contents
pub mod Visible
pub mod Durable
pub mod Sessions

abbrev pub history_max_records : ℕ
history_max_records = 200

pub record Session : Type 0 where
  pub id : String
  pub tunnel_name : String
  pub start_time : ℕ
  pub end_time : Option ℕ
  pub duration_sec : ℕ
  pub rx_bytes : ℕ
  pub tx_bytes : ℕ
  pub disconnect_reason : String

-- The whole seconds of a duration, none for a clock that went back.
unfoldable pub whole_seconds : ℕ → ℕ → ℕ
whole_seconds now start = if ltb now start then 0 else (now - start) / 1000000000

abbrev pub is_open : Session → Bool
is_open s = is_none s.end_time

-- The session that RecordConnect appends.
abbrev pub new_session : String → String → ℕ → Session
new_session id name now = record {
  id = id;
  tunnel_name = name;
  start_time = now;
  end_time = none;
  duration_sec = 0;
  rx_bytes = 0;
  tx_bytes = 0;
  disconnect_reason = "";
}

-- The slice from an index on.
unfoldable pub slice_from : ℕ → List Session → List Session
slice_from zero ss = ss
slice_from (suc n) [] = []
slice_from (suc n) (s ∷ ss) = slice_from n ss

-- trimSessions
unfoldable pub trim_sessions : List Session → List Session
unfolding slice_from
trim_sessions ss =
    if leb (length ss) history_max_records
    then ss
    else slice_from (length ss - history_max_records) ss

-- The rows that GetAll leaves out.
unfoldable pub is_phantom : Session → Bool
is_phantom s = is_some s.end_time && (s.duration_sec == 0) && (s.rx_bytes == 0) && (s.tx_bytes == 0)

-- A call of RecordDisconnect.
pub record Closing : Type 0 where
  pub id : String
  pub rx : ℕ
  pub tx : ℕ
  pub reason : String
  pub now : ℕ

abbrev pub closed : Closing → Session → Session
closed c s = record s {
  end_time = some c.now;
  duration_sec = whole_seconds c.now s.start_time;
  rx_bytes = c.rx;
  tx_bytes = c.tx;
  disconnect_reason = c.reason;
}

abbrev pub kept_before : Session → Option (List Session) → Option (List Session)
kept_before s none = none
kept_before s (some ss) = some (s ∷ ss)

-- The loop of RecordDisconnect: none if it changes nothing.
unfoldable pub close_session : Closing → List Session → Option (List Session)
unfolding whole_seconds
close_session c [] = none
close_session c (s ∷ ss) =
    let rest = close_session c ss in
    if not (str_eq s.id c.id) || is_some s.end_time
    then kept_before s rest
    else if (whole_seconds c.now s.start_time == 0) && (c.rx == 0) && (c.tx == 0)
    then some ss
    else some (closed c s ∷ ss)

abbrev pub ended : String → ℕ → Session → Session
ended reason now s = record s {
  end_time = some now;
  duration_sec = whole_seconds now s.start_time;
  disconnect_reason = reason;
}

-- The loop of CloseOpenSessions, and whether it changes something.
unfoldable pub close_open : String → ℕ → List Session → List Session × Bool
unfolding whole_seconds
close_open reason now [] = ([], false)
close_open reason now (s ∷ ss) =
    let rest = close_open reason now ss in
    if is_open s
    then if whole_seconds now s.start_time == 0
      then (rest.0, true)
      else (ended reason now s ∷ rest.0, true)
    else (s ∷ rest.0, rest.1)

-- EndTime.Before(now - maxAge), for a session that has ended.
abbrev pub ended_before : ℕ → ℕ → Option ℕ → Bool
ended_before max_age now none = false
ended_before max_age now (some e) = ltb (e + max_age) now

-- The loop of TrimByAge, and how many it removes.
unfoldable pub trim_old : ℕ → ℕ → List Session → List Session × ℕ
trim_old max_age now [] = ([], 0)
trim_old max_age now (s ∷ ss) =
    let rest = trim_old max_age now ss in
    if ended_before max_age now s.end_time then (rest.0, rest.1 + 1) else (s ∷ rest.0, rest.1)

-- The loop of GetAll, which goes from the last session to the first.
unfoldable pub newest_first : List Session → List Session
unfolding is_phantom
newest_first [] = []
newest_first (s ∷ ss) = let rest = newest_first ss in if is_phantom s then rest else rest ++ s ∷ []

-- history.json: what os.ReadFile and json.Unmarshal make of it.
pub data Stored : Type 0 where
  missing unreadable corrupt : Stored
  holds : List Session → Stored

pub record HistoryStore : Type 0 where
  pub file : Stored
  pub cache : List Session
  pub cache_valid : Bool
  pub dirty : Bool
  -- Whether the flush timer is pending.
  pub flush_timer : Bool

-- NewHistoryStore
abbrev pub new_history_store : Stored → HistoryStore
new_history_store f = record {
  file = f;
  cache = [];
  cache_valid = false;
  dirty = false;
  flush_timer = false;
}

-- The sessions of a file; those of a file that cannot be read are lost.
abbrev pub contents : Stored → List Session
contents (Stored.holds ss) = ss
contents _ = []

-- A corrupt file is renamed, if that succeeds.
abbrev pub set_aside : Bool → Stored → Stored
set_aside true Stored.corrupt = Stored.missing
set_aside _ f = f

-- loadLocked; `renames` says whether a corrupt file can be renamed. What it returns is the cache.
unfoldable pub load : Bool → HistoryStore → HistoryStore
load renames h =
    if h.cache_valid
    then h
    else record h { file = set_aside renames h.file; cache = contents h.file; cache_valid = true }

-- commitLocked and scheduleFlushLocked
unfoldable pub commit : List Session → HistoryStore → HistoryStore
commit ss h = record h { cache = ss; cache_valid = true; dirty = true; flush_timer = true }

-- The write of a flush, which may fail.
unfoldable pub save : Bool → HistoryStore → HistoryStore
save saves h = if saves then record h { file = Stored.holds h.cache; dirty = false } else h

pub data Op : Type 0 where
  record_connect : String → String → ℕ → Op
  record_disconnect : Closing → Op
  close_open_sessions : String → ℕ → Op
  -- A maxAge that is not positive is 0.
  trim_by_age : ℕ → ℕ → Op
  -- GetAll, which reads the file if nothing else has.
  read : Op
  -- Whether os.Remove leaves no file.
  clear : Bool → Op
  -- Whether the write succeeds.
  flush : Bool → Op
  flush_timer_fires : Bool → Op

abbrev pub commit_if : Option (List Session) → HistoryStore → HistoryStore
commit_if none h = h
commit_if (some ss) h = commit ss h

-- The operations of the store, under its lock.
unfoldable pub step : Bool → Op → HistoryStore → HistoryStore
unfolding load commit save trim_sessions close_session close_open trim_old
step renames (Op.record_connect id name now) h =
    let l = load renames h in commit (trim_sessions (l.cache ++ new_session id name now ∷ [])) l
step renames (Op.record_disconnect c) h =
    if str_eq c.id "" then h else let l = load renames h in commit_if (close_session c l.cache) l
step renames (Op.close_open_sessions reason now) h =
    let l = load renames h in
    let r = close_open reason now l.cache in if r.1 then commit r.0 l else l
step renames (Op.trim_by_age max_age now) h =
    if max_age == 0
    then h
    else let l = load renames h in
      let r = trim_old max_age now l.cache in if r.1 == 0 then l else commit r.0 l
step renames Op.read h = load renames h
step renames (Op.clear removes) h = record {
  file = if removes then Stored.missing else h.file;
  cache = [];
  cache_valid = true;
  dirty = false;
  flush_timer = false;
}
step renames (Op.flush saves) h =
    if not h.dirty || not h.cache_valid then h else save saves (record h { flush_timer = false })
step renames (Op.flush_timer_fires saves) h =
    let fired = record h { flush_timer = false } in
    if not h.dirty || not h.cache_valid then fired else save saves fired

-- What GetAll returns.
unfoldable pub get_all : Bool → HistoryStore → List Session
unfolding load newest_first
get_all renames h = newest_first ((load renames h).cache)
