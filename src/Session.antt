-- ===== src/Session.antt =====
-- src/session.ts: the session store and its storage. A method of the store is asynchronous: what it
-- does before its one `await` is a `begin`, and what it does after it a `finish` of a pending task;
-- other calls run between the two. `run` takes any interleaving of them, and `Whole` the calls that
-- are awaited before the next one.
pub mod Value
pub mod Timer
pub mod Whole
mod Tests
use vellar_sdk.Prelude.{
  ℕ, String, Bool, true, false, not, ◌&&◌, ◌||◌, Option, none, some, List, [], ◌∷◌, Result, ok, err,
  ◌+◌, ℤ, pos, lt_ℤ, keep, is_empty, ◌==◌, nat_eq, if◌then◌else◌,
}
use vellar_sdk.Session.Value.{Raw, WalletSession, to_raw, read_session}

pub data SessionStatus : Type 0 where
  loading connected disconnected : SessionStatus

-- The store's fields, `timer` (the handle of its interval) among them; the intervals of the runtime
-- that have been set and not cleared, and the next handle that it gives; and what an adapter that keeps
-- its value at once, as `createMemoryStorageAdapter` does, has stored.
pub record Store : Type 0 where
  pub session : Option WalletSession
  pub status : SessionStatus
  pub timer : Option ℕ
  pub intervals : List ℕ
  pub next_handle : ℕ
  pub disposed : Bool
  pub stored : Option Raw

abbrev pub fresh : Option Raw → Store
fresh stored = record {
  session = none;
  status = loading;
  timer = none;
  intervals = [];
  next_handle = 0;
  disposed = false;
  stored = stored;
}

-- `refreshIntervalMs` is given and above 0.
abbrev pub is_refreshing : Option ℤ → Bool
is_refreshing none = false
is_refreshing (some ms) = lt_ℤ (pos 0) ms

-- `setInterval`, whose handle is the store's timer.
abbrev pub set_interval : Store → Store
set_interval s = record s {
  timer = some s.next_handle;
  intervals = s.next_handle ∷ s.intervals;
  next_handle = s.next_handle + 1;
}

-- `clearInterval`.
unfoldable pub clear_interval : ℕ → List ℕ → List ℕ
clear_interval handle = keep (λ i. not (i == handle))

unfoldable pub stop_refresh : Store → Store
unfolding clear_interval
stop_refresh s = elim s.timer [
  | none ↦ s
  | some handle ↦ record s { timer = none; intervals = clear_interval handle s.intervals }
]

abbrev pub has_timer : Option ℕ → Bool
has_timer none = false
has_timer (some handle) = true

-- What is left of a method after its `await`: `load` has rejected, or has given a value.
pub data Task : Type 0 where
  start_task touch_task : WalletSession → Task
  end_task restore_failed : Task
  restore_task : Option Raw → Task

-- A stored value that is a wallet session.
abbrev pub loaded_session : Option Raw → Option WalletSession
loaded_session none = none
loaded_session (some raw) = read_session raw

module _ (interval : Option ℤ) where
  unfoldable pub start_refresh : Store → Store
  start_refresh s =
      if s.disposed
      then s
      else if has_timer s.timer
      then s
      else if not (is_refreshing interval)
      then s
      else set_interval s

  abbrev pub forget : Store → Store
  forget s = record s { session = none; status = disconnected }

  -- After the `await`.
  unfoldable pub finish : Task → Store → Store
  finish (start_task session) s =
      start_refresh (record s { session = some session; status = connected })
  finish (touch_task updated) s = record s { session = some updated }
  finish end_task s = forget (stop_refresh s)
  finish restore_failed s = forget s
  finish (restore_task raw) s = elim (loaded_session raw) [
    | none ↦ forget s
    | some session ↦ start_refresh (record s { session = some session; status = connected })
  ]

-- `start(session)`, up to its `await`.
abbrev pub begin_start : WalletSession → Store → Store × Option Task
begin_start session s = (record s { stored = some (to_raw session) }, some (start_task session))

-- `touch(now)`: nothing is saved, and nothing is left to do, where there is no session.
abbrev pub begin_touch : String → Store → Store × Option Task
begin_touch now s = elim s.session [
  | none ↦ (s, none)
  | some session ↦
      let updated = record session { last_active_at = now } in
      (record s { stored = some (to_raw updated) }, some (touch_task updated))
]

abbrev pub begin_end : Store → Store × Option Task
begin_end s = (record s { stored = none }, some end_task)

abbrev pub begin_restore : Store → Store × Option Task
begin_restore s = (s, some (restore_task s.stored))

-- The interval's callback; the runtime calls it while an interval is set and not cleared.
abbrev pub on_tick : String → Store → Store × Option Task
on_tick now s =
    let touched = begin_touch now s in
    if is_empty s.intervals then (s, none) else (if s.disposed then (s, none) else touched)

unfoldable pub dispose : Store → Store
unfolding stop_refresh
dispose s = stop_refresh (record s { disposed = true })

-- A part of some method: the beginning of a call, the rest of a pending one, or `dispose`.
pub data Event : Type 0 where
  start_called : WalletSession → Event
  touch_called ticked : String → Event
  end_called restore_called disposed_now : Event
  task_finished : Task → Event

module _ (interval : Option ℤ) where
  unfoldable pub handle : Event → Store → Store
  handle (start_called session) s = (begin_start session s).0
  handle (touch_called now) s = (begin_touch now s).0
  handle (ticked now) s = (on_tick now s).0
  handle end_called s = (begin_end s).0
  handle restore_called s = (begin_restore s).0
  handle disposed_now s = dispose s
  handle (task_finished task) s = finish interval task s

  unfoldable pub run : List Event → Store → Store
  run [] s = s
  run (e ∷ es) s = run es (handle e s)
