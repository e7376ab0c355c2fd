-- ===== src/Hub/TheftLoop/Debounce.antt =====
-- hub/app.py, `_theft_loop`: a device that a tick asks is left alone for thirty seconds, the
-- least interval that a row can have.
use vortex_portal.Base.{
  ℕ, ◌+◌, ◌≤◌, ◌<◌, ◌≡◌, refl, sym, ◌∙◌, inl, inr, true, false, ◌&&◌, List, [], ◌∷◌, ◌++◌, All,
  arith, Bool-cases, Option-cases, subst,
}
use vortex_portal.Base.Text.{Text, codes, text_eq, or_else}
use vortex_portal.Db.Schema.{TheftState}
use vortex_portal.Db.Theft.{update_theft_last_run, armed_devices}
use vortex_portal.Hub.Capture.{Store}
use vortex_portal.Hub.TheftLoop.{Job, Outside, Tick, is_due, as_opts, tick_over, tick}
use vortex_portal.Hub.TheftLoop.Rows.{
  asks_for, has_run, AllRan, AllRanRows, AllRan-select, AllRan-with_owner, AllRan-other, waits_at,
}
use vortex_portal.Hub.TheftLoop.Marking.{
  three, marked, three-state, three-other, tick_over_skip, tick_over_stop, tick_over_ask,
  tick_over-IsMarked,
}

module _ (w : Outside) where
  -- A row that has run waits out thirty seconds at least.
  waits :
      (device_id : Text) (now later : ℕ) (st : TheftState)
      → has_run device_id now st ≡ true
      → now ≤ later
      → later < now + 30
      → is_due later st ≡ true
      → text_eq st.device_id device_id ≡ false
  waits device_id now later st h l w due =
      ground (arith, waits_at now later st.interval_s st.last_run l w)

  -- A tick within thirty seconds asks nothing of a device that has run, and leaves its rows.
  abbrev Quiet : Text → ℕ → Tick → Type 0
  Quiet device_id now t =
      (asks_for device_id t.jobs ≡ false) × AllRan device_id now t.store.db.theft_state

  tick_over-Quiet :
      (device_id : Text) (now later : ℕ) (rows : List (TheftState × ℕ)) (t : Tick)
      → AllRanRows device_id now rows
      → now ≤ later
      → later < now + 30
      → Quiet device_id now t
      → Quiet device_id now (tick_over w later rows t)
  unfolding tick_over update_theft_last_run
  tick_over-Quiet device_id now later [] t h l u q = q
  tick_over-Quiet device_id now later ((st, owner_id) ∷ rows) t h l u q =
      elim (Bool-cases (is_due later st && w.online st.device_id)) [
        | inr e ↦
            subst (Quiet device_id now) (sym (tick_over_skip w later owner_id st rows t e))
              (tick_over-Quiet device_id now later rows t h.1 l u q)
        | inl e ↦
            let other = waits device_id now later st h.0 l u (ground arith) in
            let kept =
              AllRan-other device_id st.device_id now later t.store.db.theft_state other q.1 in
            elim (Option-cases (as_opts (w.loads (or_else st.opts (codes "{}"))))) [
              | inl o ↦
                  subst (Quiet device_id now) (sym (tick_over_stop w later owner_id st rows t e o))
                    (q.0, kept)
              | inr (opts, o) ↦
                  let after = marked w st later t in
                  subst (Quiet device_id now)
                    (sym (tick_over_ask w later owner_id st rows t opts e o))
                    (tick_over-Quiet device_id now later rows
                      (three w st.device_id owner_id opts after) h.1 l u
                      (
                        three-other w device_id st.device_id owner_id opts after other ∙ q.0,
                        subst (AllRan device_id now)
                            (sym (three-state w st.device_id owner_id opts after)) kept,
                      ))
            ]
      ]

  AllRan-armed :
      (device_id : Text) (now : ℕ) (s : Store)
      → AllRan device_id now s.db.theft_state
      → AllRanRows device_id now (armed_devices s.db)
  unfolding armed_devices
  AllRan-armed device_id now s h =
      AllRan-with_owner device_id now s.db.devices _
        (AllRan-select device_id now (λ (t : TheftState). t.armed) s.db.theft_state h)

  tick-Quiet :
      (device_id : Text) (now later : ℕ) (s : Store)
      → now ≤ later
      → later < now + 30
      → AllRan device_id now s.db.theft_state
      → Quiet device_id now (tick w later s)
  unfolding tick asks_for
  tick-Quiet device_id now later s l u h =
      tick_over-Quiet device_id now later (armed_devices s.db) (record { store = s; jobs = [] })
        (AllRan-armed device_id now s h) l u (refl, h)

  tick-marks :
      (device_id : Text) (now : ℕ) (s : Store)
      → asks_for device_id (tick w now s).jobs ≡ true
      → AllRan device_id now (tick w now s).store.db.theft_state
  unfolding tick asks_for
  tick-marks device_id now s asked =
      elim (tick_over-IsMarked w device_id now (armed_devices s.db)
        (record { store = s; jobs = [] }) (inl refl)) [ inl n ↦ absurd (ground arith) | inr r ↦ r ]

-- Ticks one after another, each at its time and in its surroundings: what they ask for.
unfoldable pub ticks : List (ℕ × Outside) → Store → List Job
ticks [] s = []
ticks ((at, w) ∷ rounds) s = let t = tick w at s in t.jobs ++ ticks rounds t.store

abbrev pub Within : ℕ → ℕ × Outside → Type 0
Within now round = (now ≤ round.0) × (round.0 < now + 30)

asks_for-++ :
    (device_id : Text) (js ks : List Job)
    → asks_for device_id js ≡ false
    → asks_for device_id ks ≡ false
    → asks_for device_id (js ++ ks) ≡ false
unfolding asks_for
asks_for-++ device_id [] ks h k = k
asks_for-++ device_id (j ∷ js) ks h k = ground (arith, asks_for-++ device_id js ks)

ticks_quiet :
    (device_id : Text) (now : ℕ) (rounds : List (ℕ × Outside)) (s : Store)
    → All (Within now) rounds
    → AllRan device_id now s.db.theft_state
    → asks_for device_id (ticks rounds s) ≡ false
unfolding ticks asks_for
ticks_quiet device_id now [] s h r = refl
ticks_quiet device_id now ((at, w) ∷ rounds) s h r =
    let quiet = tick-Quiet w device_id now at s h.0.0 h.0.1 r in
    asks_for-++ device_id _ _ quiet.0
      (ticks_quiet device_id now rounds (tick w at s).store h.1 quiet.1)

-- If a tick asks a device for a capture, then none of the ticks that follow it within thirty seconds
-- does, however many they are, whatever interval the row has, whichever devices are online and
-- whatever the captures of the ticks give, as long as nothing but the ticks writes to the database
-- in between.
pub tick-debounced :
    (w : Outside) (device_id : Text) (now : ℕ) (s : Store) (rounds : List (ℕ × Outside))
    → asks_for device_id (tick w now s).jobs ≡ true
    → All (Within now) rounds
    → asks_for device_id (ticks rounds (tick w now s).store) ≡ false
tick-debounced w device_id now s rounds asked within =
    ticks_quiet device_id now rounds (tick w now s).store within
      (tick-marks w device_id now s asked)
