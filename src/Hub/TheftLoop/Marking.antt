-- ===== src/Hub/TheftLoop/Marking.antt =====
-- hub/app.py, `_theft_loop`: a tick marks the rows of the devices that it asks.
use vortex_portal.Base.{
  ℕ, ◌≡◌, ◌⊎◌, refl, sym, ◌∙◌, inl, inr, true, false, ◌&&◌, none, some, List, [], ◌∷◌, arith,
  Bool-cases, Option-cases, subst,
}
use vortex_portal.Base.Text.{Text, codes, text_eq, text_eq_iff, or_else}
use vortex_portal.Base.Json.{Fields, lookup, truthy}
use vortex_portal.Base.Table.{update}
use vortex_portal.Db.Schema.{TheftState}
use vortex_portal.Db.Theft.{state_of, update_theft_last_run}
use vortex_portal.Hub.Capture.{Kind, photo_kind, audio_kind, location_kind, name_of, Store}
use vortex_portal.Hub.Capture.Bounded.{capture_to_store-theft_state}
use vortex_portal.Hub.TheftLoop.{Job, Outside, Tick, capture, is_due, as_opts, ask, tick_over}
use vortex_portal.Hub.TheftLoop.Rows.{asks_for, asks_for-append, AllRan, AllRan-mark, AllRan-update}

module _ (w : Outside) where
  capture_quiet : (j : Job) (s : Store) → (capture w j s).db.theft_state ≡ s.db.theft_state
  capture_quiet j s =
      capture_to_store-theft_state w.digits w.meta_of w.inside w.b64decode j.device_id j.owner_id
        j.kind (codes "auto") w.retention (w.clock j) (w.drawn j) (w.items j) s

  -- Asking changes no row of Theft Mode, and asks for its device only.
  ask-state :
      (device_id : Text) (owner_id : ℕ) (opts : Fields) (kind : Kind) (t : Tick)
      → (ask w device_id owner_id opts kind t).store.db.theft_state ≡ t.store.db.theft_state
  ask-state device_id owner_id opts kind t =
      elim (Bool-cases (truthy (lookup (name_of kind) opts))) [
        | inl e ↦ rw e (capture_quiet _ t.store)
        | inr e ↦ rw e refl
      ]

  ask-other :
      (other device_id : Text) (owner_id : ℕ) (opts : Fields) (kind : Kind) (t : Tick)
      → text_eq device_id other ≡ false
      → asks_for other (ask w device_id owner_id opts kind t).jobs ≡ asks_for other t.jobs
  ask-other other device_id owner_id opts kind t d =
      elim (Bool-cases (truthy (lookup (name_of kind) opts))) [
        | inl e ↦ rw e (
            ground (
              arith,
              asks_for-append other t.jobs
                  (record { device_id = device_id; owner_id = owner_id; kind = kind; opts = opts }),
            ))
        | inr e ↦ rw e refl
      ]

  abbrev pub three : Text → ℕ → Fields → Tick → Tick
  three device_id owner_id opts t =
      ask w device_id owner_id opts audio_kind
        (ask w device_id owner_id opts photo_kind (ask w device_id owner_id opts location_kind t))

  pub three-state :
      (device_id : Text) (owner_id : ℕ) (opts : Fields) (t : Tick)
      → (three device_id owner_id opts t).store.db.theft_state ≡ t.store.db.theft_state
  three-state device_id owner_id opts t =
      ask-state device_id owner_id opts audio_kind _
      ∙ ask-state device_id owner_id opts photo_kind _
      ∙ ask-state device_id owner_id opts location_kind t

  pub three-other :
      (other device_id : Text) (owner_id : ℕ) (opts : Fields) (t : Tick)
      → text_eq device_id other ≡ false
      → asks_for other (three device_id owner_id opts t).jobs ≡ asks_for other t.jobs
  three-other other device_id owner_id opts t d =
      ask-other other device_id owner_id opts audio_kind _ d
      ∙ ask-other other device_id owner_id opts photo_kind _ d
      ∙ ask-other other device_id owner_id opts location_kind t d

  abbrev pub marked : TheftState → ℕ → Tick → Tick
  marked st now t = record t {
    store = record t.store { db = update_theft_last_run t.store.db st.device_id now };
  }

  -- A device that the tick has asked so far has been marked.
  abbrev pub IsMarked : Text → ℕ → Tick → Type 0
  IsMarked device_id now t =
      (asks_for device_id t.jobs ≡ false) ⊎ AllRan device_id now t.store.db.theft_state

  -- One row whose device is marked, and perhaps asked.
  marked-IsMarked :
      (device_id : Text) (now : ℕ) (st : TheftState) (t : Tick)
      → IsMarked device_id now t
      → IsMarked device_id now (marked st now t)
  unfolding update_theft_last_run
  marked-IsMarked device_id now st t (inl h) = inl h
  marked-IsMarked device_id now st t (inr h) =
      inr (AllRan-update device_id st.device_id now t.store.db.theft_state h)

  three-IsMarked :
      (device_id : Text) (now owner_id : ℕ) (opts : Fields) (st : TheftState) (t : Tick)
      → IsMarked device_id now t
      → IsMarked device_id now (three st.device_id owner_id opts (marked st now t))
  unfolding update_theft_last_run
  three-IsMarked device_id now owner_id opts st t h =
      elim (Bool-cases (text_eq st.device_id device_id)) [
        | inl z ↦
            let same = (text_eq_iff st.device_id device_id).0 z in
            let rows = t.store.db.theft_state in
            inr (
              subst (AllRan device_id now)
                (sym (three-state st.device_id owner_id opts (marked st now t)))
                (subst
                  (λ d. AllRan device_id now (
                    update (state_of d) (λ (r : TheftState). record r { last_run = some now })
                      rows))
                  (sym same) (AllRan-mark device_id now rows)))
        | inr z ↦ elim (marked-IsMarked device_id now st t h) [
          | inl a ↦ inl (three-other device_id st.device_id owner_id opts (marked st now t) z ∙ a)
          | inr a ↦ inr (
              subst (AllRan device_id now)
                (sym (three-state st.device_id owner_id opts (marked st now t))) a)
        ]
      ]

  pub tick_over_skip :
      (now owner_id : ℕ) (st : TheftState) (rows : List (TheftState × ℕ)) (t : Tick)
      → (is_due now st && w.online st.device_id) ≡ false
      → tick_over w now ((st, owner_id) ∷ rows) t ≡ tick_over w now rows t
  unfolding tick_over
  tick_over_skip now owner_id st rows t e = rw (e, tick_over) refl

  pub tick_over_stop :
      (now owner_id : ℕ) (st : TheftState) (rows : List (TheftState × ℕ)) (t : Tick)
      → (is_due now st && w.online st.device_id) ≡ true
      → as_opts (w.loads (or_else st.opts (codes "{}"))) ≡ none
      → tick_over w now ((st, owner_id) ∷ rows) t ≡ marked st now t
  unfolding tick_over
  tick_over_stop now owner_id st rows t e o = rw (e, tick_over) (rw (o, tick_over) refl)

  pub tick_over_ask :
      (now owner_id : ℕ) (st : TheftState) (rows : List (TheftState × ℕ)) (t : Tick) (opts : Fields)
      → (is_due now st && w.online st.device_id) ≡ true
      → as_opts (w.loads (or_else st.opts (codes "{}"))) ≡ some opts
      → tick_over w now ((st, owner_id) ∷ rows) t
        ≡ tick_over w now rows (three st.device_id owner_id opts (marked st now t))
  unfolding tick_over
  tick_over_ask now owner_id st rows t opts e o = rw (e, tick_over) (rw (o, tick_over) refl)

  pub tick_over-IsMarked :
      (device_id : Text) (now : ℕ) (rows : List (TheftState × ℕ)) (t : Tick)
      → IsMarked device_id now t
      → IsMarked device_id now (tick_over w now rows t)
  unfolding tick_over
  tick_over-IsMarked device_id now [] t h = h
  tick_over-IsMarked device_id now ((st, owner_id) ∷ rows) t h =
      elim (Bool-cases (is_due now st && w.online st.device_id)) [
        | inr e ↦
            subst (IsMarked device_id now) (sym (tick_over_skip now owner_id st rows t e))
              (tick_over-IsMarked device_id now rows t h)
        | inl e ↦ elim (Option-cases (as_opts (w.loads (or_else st.opts (codes "{}"))))) [
          | inl o ↦
              subst (IsMarked device_id now) (sym (tick_over_stop now owner_id st rows t e o))
                (marked-IsMarked device_id now st t h)
          | inr (opts, o) ↦
              subst (IsMarked device_id now) (sym (tick_over_ask now owner_id st rows t opts e o)) (
                tick_over-IsMarked device_id now rows
                  (three st.device_id owner_id opts (marked st now t))
                  (three-IsMarked device_id now owner_id opts st t h))
        ]
      ]
