-- ===== src/Session/Timer.antt =====
-- src/session.ts: what holds however the parts of the store's methods interleave.
use vellar_sdk.Prelude.{
  ℕ, ℤ, true, false, Option, none, some, List, [], ◌∷◌, ◌≡◌, refl, ◌∙◌, ◌≢◌, is_empty, arith,
  Bool-cases, Option-cases, inl, inr, ap, sym, String, ◌⊎◌,
}
use mathlib.Core.Path.{subst}
use vellar_sdk.Session.Value.{WalletSession, Raw, to_raw}
use vellar_sdk.Session.{
  connected, Store, is_refreshing, set_interval, clear_interval, stop_refresh, has_timer,
  start_task, touch_task, end_task, restore_failed, restore_task, Task, finish, start_refresh,
  forget, dispose, loaded_session, begin_touch, Event, start_called, touch_called, ticked,
  end_called, restore_called, disposed_now, task_finished, handle, run,
}

-- The intervals that a timer stands for.
abbrev pub held_by : Option ℕ → List ℕ
held_by none = []
held_by (some h) = h ∷ []

clear_interval-only : (h : ℕ) → clear_interval h (h ∷ []) ≡ []
unfolding clear_interval
clear_interval-only h = ground arith

-- The intervals that are set are the timer's one, where it has one.
abbrev pub OwnsIntervals : Store → Type 0
OwnsIntervals s = s.intervals ≡ held_by s.timer

stop_refresh-clears :
    (s : Store)
    → OwnsIntervals s
    → ((stop_refresh s).intervals ≡ [])
      × ((stop_refresh s).timer ≡ none)
      × ((stop_refresh s).disposed ≡ s.disposed)
      × ((stop_refresh s).status ≡ s.status)
      × ((stop_refresh s).session ≡ s.session)
unfolding stop_refresh
stop_refresh-clears s owns = elim (Option-cases s.timer) [
  | inl e ↦
      let same : stop_refresh s ≡ s = simp (stop_refresh, e) in
      rw same (owns ∙ ap held_by e, e, refl, refl, refl)
  | inr (h, e) ↦
      let same : stop_refresh s
          ≡ record s { timer = none; intervals = clear_interval h s.intervals } =
        simp (stop_refresh, e) in
      rw same (
        ap (clear_interval h) (owns ∙ ap held_by e) ∙ clear_interval-only h,
        refl,
        refl,
        refl,
        refl,
      )
]

unset : (t : Option ℕ) → has_timer t ≡ false → t ≡ none
unset none e = refl
unset (some h) e = cc e

module _ (interval : Option ℤ) where
  pub record IsSound (s : Store) : Type 0 where
    pub owns : OwnsIntervals s
    pub off : s.disposed ≡ true → s.intervals ≡ []
    pub configured : is_empty s.intervals ≡ false → is_refreshing interval ≡ true
    pub shown : s.status ≡ connected → s.session ≢ none

  set_interval-IsSound :
      (s : Store)
      → IsSound s
      → s.disposed ≡ false
      → s.timer ≡ none
      → is_refreshing interval ≡ true
      → IsSound (set_interval s)
  set_interval-IsSound s v d t r = record {
    owns = ap (λ l. s.next_handle ∷ l) (v.owns ∙ ap held_by t);
    off = λ e. cc (e, d);
    configured = λ e. r;
    shown = v.shown;
  }

  start_refresh-cases :
      (s : Store)
      → (start_refresh interval s ≡ s)
        ⊎ ((s.disposed ≡ false)
            × (s.timer ≡ none)
            × (is_refreshing interval ≡ true)
            × (start_refresh interval s ≡ set_interval s))
  unfolding start_refresh
  start_refresh-cases s = elim (Bool-cases s.disposed) [
    | inl d ↦ inl (simp (start_refresh, d))
    | inr d ↦ elim (Bool-cases (has_timer s.timer)) [
      | inl t ↦ inl (simp (start_refresh, d, t))
      | inr t ↦ elim (Bool-cases (is_refreshing interval)) [
        | inr r ↦ inl (simp (start_refresh, d, t, r))
        | inl r ↦ inr (d, unset s.timer t, r, simp (start_refresh, d, t, r))
      ]
    ]
  ]

  start_refresh-IsSound : (s : Store) → IsSound s → IsSound (start_refresh interval s)
  start_refresh-IsSound s v = elim (start_refresh-cases s) [
    | inl same ↦ subst IsSound (sym same) v
    | inr (d, t, r, same) ↦ subst IsSound (sym same) (set_interval-IsSound s v d t r)
  ]

  -- A store that has stopped has no interval.
  stop_refresh-IsSound :
      (s : Store)
      → OwnsIntervals s
      → (s.status ≡ connected → s.session ≢ none)
      → IsSound (stop_refresh s)
  stop_refresh-IsSound s owns shown =
      let (cleared, unset_now, same_disposed, same_status, same_session) =
        stop_refresh-clears s owns in
      record {
        owns = cleared ∙ sym (ap held_by unset_now);
        off = λ e. cleared;
        configured = λ e. cc (e, cleared);
        shown = λ e n. shown (sym same_status ∙ e) (sym same_session ∙ n);
      }

  connect-IsSound :
      (x : WalletSession) (s : Store)
      → IsSound s
      → IsSound (start_refresh interval (record s { session = some x; status = connected }))
  connect-IsSound x s v =
      start_refresh-IsSound (record s { session = some x; status = connected })
        record { owns = v.owns; off = v.off; configured = v.configured; shown = λ e n. cc n }

  forget-IsSound : (s : Store) → IsSound s → IsSound (forget interval s)
  forget-IsSound s v = record {
    owns = v.owns;
    off = v.off;
    configured = v.configured;
    shown = λ e. cc e;
  }

  finish-IsSound : (task : Task) (s : Store) → IsSound s → IsSound (finish interval task s)
  unfolding finish
  finish-IsSound (start_task session) s v = connect-IsSound session s v
  finish-IsSound (touch_task updated) s v = record {
    owns = v.owns;
    off = v.off;
    configured = v.configured;
    shown = λ e n. cc n;
  }
  finish-IsSound end_task s v =
      forget-IsSound (stop_refresh s) (stop_refresh-IsSound s v.owns v.shown)
  finish-IsSound restore_failed s v = forget-IsSound s v
  finish-IsSound (restore_task raw) s v = elim (Option-cases (loaded_session raw)) [
    | inl missing ↦ rw (missing, finish) (forget-IsSound s v)
    | inr (x, there) ↦ rw (there, finish) (connect-IsSound x s v)
  ]

  restored :
      (s s' : Store) (raw : Option Raw) → IsSound s → s' ≡ record s { stored = raw } → IsSound s'
  restored s s' raw v e =
      rw e record { owns = v.owns; off = v.off; configured = v.configured; shown = v.shown }

  touch-IsSound : (now : String) (s : Store) → IsSound s → IsSound (begin_touch now s).0
  touch-IsSound now s v = elim (Option-cases s.session) [
    | inl none_there ↦
        let same : (begin_touch now s).0 ≡ s = ground arith in subst IsSound (sym same) v
    | inr (x, there) ↦
        restored s (begin_touch now s).0 (some (to_raw (record x { last_active_at = now }))) v
          (ground arith)
  ]

  dispose-IsSound : (s : Store) → IsSound s → IsSound (dispose s)
  unfolding dispose
  dispose-IsSound s v = stop_refresh-IsSound (record s { disposed = true }) v.owns v.shown

  handle-IsSound : (e : Event) (s : Store) → IsSound s → IsSound (handle interval e s)
  unfolding handle
  handle-IsSound (start_called session) s v = restored s _ (some (to_raw session)) v refl
  handle-IsSound (touch_called now) s v = touch-IsSound now s v
  handle-IsSound (ticked now) s v = elim (Bool-cases (is_empty s.intervals)) [
    | inl quiet ↦ rw (quiet, handle) v
    | inr set ↦ elim (Bool-cases s.disposed) [
      | inl d ↦ cc (v.off d, set)
      | inr live ↦
          let same : (begin_touch now s).0 ≡ handle interval (ticked now) s =
            simp (handle, set, live) in
          subst IsSound same (touch-IsSound now s v)
    ]
  ]
  handle-IsSound end_called s v = restored s _ none v refl
  handle-IsSound restore_called s v = v
  handle-IsSound disposed_now s v = dispose-IsSound s v
  handle-IsSound (task_finished task) s v = finish-IsSound task s v

  -- If it holds before: however calls, ticks and their ends interleave, the intervals that are set in
  -- the runtime are the one that the timer holds, or none where it holds none; a disposed store has
  -- none set; one is only ever set where a positive interval is configured; and a store that says it
  -- is connected has a session.
  pub run-IsSound : (es : List Event) (s : Store) → IsSound s → IsSound (run interval es s)
  unfolding run
  run-IsSound [] s v = v
  run-IsSound (e ∷ es) s v = run-IsSound es (handle interval e s) (handle-IsSound e s v)
