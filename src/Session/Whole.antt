-- ===== src/Session/Whole.antt =====
-- src/session.ts: calls that are awaited before the next one, and the race that awaiting avoids.
use vellar_sdk.Prelude.{
  ℤ, String, Option, none, some, List, [], ◌∷◌, ◌≡◌, refl, sym, ap, ◌∙◌, ◌≢◌, arith, Option-cases,
  inl, inr, ◌↔◌,
}
use vellar_sdk.Session.Value.{
  WalletSession, Raw, to_raw, read_session, read_session-to_raw_iff, read_session-named,
}
use vellar_sdk.Session.{
  connected, disconnected, Store, fresh, loaded_session, touch_task, end_task, Task, finish,
  start_refresh, stop_refresh, begin_start, begin_touch, begin_end, begin_restore, Event,
  touch_called, end_called, task_finished, handle, run,
}

stop_refresh-stored : (s : Store) → (stop_refresh s).stored ≡ s.stored
unfolding stop_refresh
stop_refresh-stored s = elim (Option-cases s.timer) [
  | inl e ↦ rw (e, stop_refresh) refl
  | inr (h, e) ↦ rw (e, stop_refresh) refl
]

-- A call that is awaited.
pub data Call : Type 0 where
  start : WalletSession → Call
  touch : String → Call
  end restore : Call

module _ (interval : Option ℤ) where
  abbrev settle : Store × Option Task → Store
  settle (s, none) = s
  settle (s, some task) = finish interval task s

  unfoldable pub call : Call → Store → Store
  call (start session) s = settle (begin_start session s)
  call (touch now) s = settle (begin_touch now s)
  call end s = settle (begin_end s)
  call restore s = settle (begin_restore s)

  unfoldable pub calls : List Call → Store → Store
  calls [] s = s
  calls (c ∷ cs) s = calls cs (call c s)

  -- The status says whether there is a session.
  abbrev pub IsConsistent : Store → Type 0
  IsConsistent s = (s.status ≡ connected) ↔ (s.session ≢ none)

  call-IsConsistent : (c : Call) (s : Store) → IsConsistent s → IsConsistent (call c s)
  unfolding call finish start_refresh
  call-IsConsistent (start session) s v = ground arith
  call-IsConsistent (touch now) s v = ground arith
  call-IsConsistent end s v = ground arith
  call-IsConsistent restore s v = ground arith

  -- When each call is awaited before the next one, the store is connected exactly while it has a
  -- session.
  pub calls-IsConsistent : (cs : List Call) (s : Store) → IsConsistent s → IsConsistent (calls cs s)
  unfolding calls
  calls-IsConsistent [] s v = v
  calls-IsConsistent (c ∷ cs) s v = calls-IsConsistent cs (call c s) (call-IsConsistent c s v)

  -- Every session that is started has an account id.
  abbrev pub AllNamed : List Call → Type 0
  AllNamed [] = Unit
  AllNamed (start x ∷ cs) = (x.account_id ≢ "") × AllNamed cs
  AllNamed (c ∷ cs) = AllNamed cs

  -- What is stored reads as the store's session.
  abbrev IsSaved : Store → Type 0
  IsSaved s = loaded_session s.stored ≡ s.session

  saved_named :
      (raw : Option Raw) (x : WalletSession) → loaded_session raw ≡ some x → x.account_id ≢ ""
  saved_named none x h = cc
  saved_named (some raw) x h = read_session-named raw x h

  end-IsSaved : (s : Store) → IsSaved (call end s)
  unfolding call finish
  end-IsSaved s = rw (ap loaded_session (stop_refresh-stored (record s { stored = none }))) refl

  restore-stored :
      (raw : Option Raw) → loaded_session (call restore (fresh raw)).stored ≡ loaded_session raw
  unfolding call finish start_refresh
  restore-stored raw = ground arith

  start-IsSaved : (x : WalletSession) (s : Store) → x.account_id ≢ "" → IsSaved (call (start x) s)
  unfolding call finish start_refresh
  start-IsSaved x s named =
      let back : read_session (to_raw x) ≡ some x = (read_session-to_raw_iff x).1 named in
      ground arith

  touch-IsSaved : (now : String) (s : Store) → IsSaved s → IsSaved (call (touch now) s)
  unfolding call finish start_refresh
  touch-IsSaved now s v = elim (Option-cases s.session) [
    | inl empty ↦ rw (empty, call) (v ∙ empty)
    | inr (x, there) ↦
        let named : x.account_id ≢ "" = saved_named s.stored x (v ∙ there) in
        rw (there, call) ((read_session-to_raw_iff (record x { last_active_at = now })).1 named)
  ]

  restore-IsSaved : (s : Store) → IsSaved (call restore s)
  unfolding call finish start_refresh
  restore-IsSaved s = ground arith

  calls-IsSaved : (cs : List Call) (s : Store) → AllNamed cs → IsSaved s → IsSaved (calls cs s)
  unfolding calls
  calls-IsSaved [] s n v = v
  calls-IsSaved (start x ∷ cs) s (named, n) v =
      calls-IsSaved cs (call (start x) s) n (start-IsSaved x s named)
  calls-IsSaved (touch now ∷ cs) s n v =
      calls-IsSaved cs (call (touch now) s) n (touch-IsSaved now s v)
  calls-IsSaved (end ∷ cs) s n v = calls-IsSaved cs (call end s) n (end-IsSaved s)
  calls-IsSaved (restore ∷ cs) s n v = calls-IsSaved cs (call restore s) n (restore-IsSaved s)

  -- Whatever is stored, of a store that restores first, and after any calls, each awaited before the
  -- next one, in which every started session has an account id: a new store that restores from the
  -- same storage has the session of the old one, or none where that has none.
  pub restart-session :
      (raw : Option Raw) (cs : List Call)
      → AllNamed cs
      → (call restore (fresh (calls (restore ∷ cs) (fresh raw)).stored)).session
        ≡ (calls (restore ∷ cs) (fresh raw)).session
  unfolding calls
  restart-session raw cs named =
      let old = calls (restore ∷ cs) (fresh raw) in
      sym (restore-IsSaved (fresh old.stored))
      ∙ restore-stored old.stored
      ∙ calls-IsSaved cs (call restore (fresh raw)) named (restore-IsSaved (fresh raw))

  -- The calls of a `touch` that is not awaited when `end` is called, of another `touch` after both
  -- are done, and of a restart.
  abbrev pub overtaken : WalletSession → String → String → List Event
  overtaken x first second =
      let touched = record x { last_active_at = first } in
      touch_called first
      ∷ end_called
      ∷ task_finished end_task
      ∷ task_finished (touch_task touched)
      ∷ touch_called second
      ∷ []

  abbrev pub ended : WalletSession → String → String → Store → Store
  ended x first second s = run interval (overtaken x first second) s

  -- A `touch` of a connected store leaves its task pending; when that task runs after an `end` has
  -- run, the store is disconnected and has the session again. The next `touch` then stores that
  -- session, and a new store that restores it is connected.
  pub overtaken-resurrects :
      (x : WalletSession) (s : Store) (first second : String)
      → s.session ≡ some x
      → x.account_id ≢ ""
      → ((begin_touch first s).1 ≡ some (touch_task (record x { last_active_at = first })))
        × ((ended x first second s).status ≡ disconnected)
        × ((ended x first second s).session ≡ some (record x { last_active_at = first }))
        × ((call restore (fresh (ended x first second s).stored)).status ≡ connected)
  unfolding run handle finish start_refresh call
  overtaken-resurrects x s first second has named =
      let back = (read_session-to_raw_iff (record x { last_active_at = second })).1 named in
      (rw has, refl, refl, ground arith)
