-- ===== src/Session/Tests.antt =====
-- src/session.ts: the store on concrete calls.
use vellar_sdk.Prelude.{ℤ, pos, List, true, false, Option, none, some, [], ◌∷◌, ◌≡◌, refl}
use vellar_sdk.Session.Value.{testnet, WalletSession, Raw, to_raw}
use vellar_sdk.Session.{
  Event, dispose, stop_refresh, clear_interval, Store, fresh, connected, start_called, ticked,
  disposed_now, task_finished, start_task, run, handle, finish, start_refresh,
}
use vellar_sdk.Session.Timer.{IsSound, run-IsSound}
use vellar_sdk.Session.Whole.{start, touch, restore, call, calls, restart-session}

abbrev alice : WalletSession
alice = record {
  account_id = "CALICE";
  network = testnet;
  connected = true;
  created_at = "2026-01-01";
  last_active_at = "2026-01-01";
}

abbrev minute : Option ℤ
minute = some (pos 60000)

abbrev online : Store
online = record {
  session = some alice;
  status = connected;
  timer = some 0;
  intervals = 0 ∷ [];
  next_handle = 1;
  disposed = false;
  stored = some (to_raw alice);
}

start_connects :
    run minute (start_called alice ∷ task_finished (start_task alice) ∷ []) (fresh none) ≡ online
unfolding run handle finish start_refresh
start_connects = refl

IsSound-online : IsSound minute online
IsSound-online = record {
  owns = refl;
  off = λ e. cc e;
  configured = λ e. refl;
  shown = λ e n. cc n;
}

-- Two starts set one interval, which `dispose` clears; a task that ends later sets none.
abbrev busy : List Event
busy =
    task_finished (start_task alice)
    ∷ ticked "2026-01-02"
    ∷ disposed_now
    ∷ task_finished (start_task alice)
    ∷ []

clears_all : (run minute busy online).intervals ≡ []
unfolding run handle finish start_refresh dispose stop_refresh clear_interval
clears_all = refl

run-IsSound_example : IsSound minute (run minute busy online)
run-IsSound_example = run-IsSound minute busy online IsSound-online

-- Another session is stored before.
abbrev old : Option Raw
old = some (to_raw (record alice { account_id = "CBOB" }))

restart-session_example :
    (call minute restore (
      fresh
        (calls minute
          (restore ∷ start alice ∷ touch "2026-01-02" ∷ [])
          (fresh old)).stored)).session
    ≡ (calls minute (restore ∷ start alice ∷ touch "2026-01-02" ∷ []) (fresh old)).session
restart-session_example =
    restart-session minute old (start alice ∷ touch "2026-01-02" ∷ []) ((λ e. cc), tt)
