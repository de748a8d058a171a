-- ===== src/Update/Persistence.antt =====
-- The file of the update state (internal/update/state.go), and what happens to a scheduler over new
-- starts of the program.
use mathlib.Core.Path.{subst}
use wireguide_plus.Common.{
  ℕ, ◌≡◌, refl, sym, if◌then◌else◌, List, [], ◌∷◌, ◌++◌, Option, none, some, Bool, true, false,
  String, str_eq,
}
use wireguide_plus.Update.Scheduler.{
  check_for_update, Feed, State, Scheduler, dismiss, check_now, kick, new_scheduler,
}

-- The scheduler, and what reading update.json gives: none if there is no file that can be parsed.
pub record Program : Type 0 where
  pub scheduler : Scheduler
  pub disk : Option State

abbrev pub fresh : State
fresh = record {
  last_check_unix = 0;
  last_seen_version = "";
  etag = "";
  last_modified = "";
  dismissed_versions = [];
  last_error_unix = 0;
  consecutive_errors = 0;
}

-- save, which leaves the old file where it fails.
unfoldable pub save_store : Bool → State → Option State → Option State
save_store succeeds st old = if succeeds then some st else old

-- load, after which NewStateStore starts fresh if it failed.
unfoldable pub load_store : Bool → Option State → State
load_store true (some st) = st
load_store true none = fresh
load_store false o = fresh

-- What happens to a program: a check by hand or by the loop, a round of a loop that is switched off, a
-- version that the user dismisses, a kick, and a new start. The last Bool says whether the file could
-- be written or read.
pub data Event : Type 0 where
  checked : ℕ → Feed → Bool → Event
  disabled_round : Event
  dismissed : String → Bool → Event
  kicked : Bool → ℕ → Event
  restarted : Bool → Event

-- A check, with what is kept and sent of the answer before.
unfoldable pub check : ℕ → Feed → Scheduler → Scheduler × List String
unfolding check_now check_for_update
check now feed s = check_now now (check_for_update feed s.store.etag s.store.last_modified) s

unfoldable pub step : Event → Program → Program × List String
unfolding check dismiss kick save_store load_store
step (Event.checked now feed succeeds) p =
    let r = check now feed p.scheduler in
    (record { scheduler = r.0; disk = save_store succeeds r.0.store p.disk }, r.1)
step Event.disabled_round p = (p, [])
step (Event.dismissed v succeeds) p =
    let st = dismiss v p.scheduler.store in
    (
      record {
        scheduler = record p.scheduler { store = st };
        disk = if str_eq v "" then p.disk else save_store succeeds st p.disk;
      },
      [],
    )
step (Event.kicked force now) p = (record p { scheduler = kick force now p.scheduler }, [])
step (Event.restarted succeeds) p =
    (record p { scheduler = new_scheduler (load_store succeeds p.disk) }, [])

-- After some events, the last one first: the program, and what it announced, the last one first.
unfoldable pub run : List Event → Program → Program × List String
unfolding step
run [] p = (p, [])
run (e ∷ es) p = let r = run es p in let t = step e r.0 in (t.0, t.1 ++ r.1)

-- Whether a new start could read the file.
abbrev pub reads : Event → Bool
reads (Event.restarted succeeds) = succeeds
reads _ = true

-- What holds of the state in the file, which is there.
abbrev pub OnDisk : (State → Type 0) → Option State → Type 0
OnDisk P o = (d : State) × (o ≡ some d) × P d

-- What holds of the state in memory and of the one in the file.
abbrev pub Both : (State → Type 0) → Program → Type 0
Both P p = P p.scheduler.store × OnDisk P p.disk

some-inj : (s t : State) → some s ≡ some t → s ≡ t
some-inj s t e = cc

pub save-OnDisk :
    (P : State → Type 0) (succeeds : Bool) (st : State) (old : Option State)
    → P st
    → OnDisk P old
    → OnDisk P (save_store succeeds st old)
unfolding save_store
save-OnDisk P true st old h k = (st, refl, h)
save-OnDisk P false st old h k = k

pub load-OnDisk : (P : State → Type 0) (o : Option State) → OnDisk P o → P (load_store true o)
unfolding load_store
load-OnDisk P none k = let e = k.1 in cc
load-OnDisk P (some st) k = subst P (sym (some-inj st k.0 k.1)) k.2
