-- ===== src/Hub/TheftLoop/Rows.antt =====
-- hub/app.py, `_theft_loop`: the jobs of a tick, and the rows of Theft Mode that have run.
use vortex_portal.Base.{
  ℕ, zero, suc, ◌+◌, ◌-◌, ◌≤◌, ◌<◌, ◌≡◌, inl, inr, Bool, true, false, ◌||◌, not, Option, none, some,
  List, [], ◌∷◌, ◌++◌, leb, ◌==◌, All, arith, Bool-cases, Option-cases,
}
use vortex_portal.Base.Text.{Text, text_eq, text_eq_iff}
use vortex_portal.Base.Table.{find, select, update}
use vortex_portal.Db.Schema.{Device, TheftState}
use vortex_portal.Db.Theft.{state_of, with_owner}
use vortex_portal.Hub.TheftLoop.{Job, interval_of, last_of}

-- Whether some job is about the device.
unfoldable pub asks_for : Text → List Job → Bool
asks_for device_id [] = false
asks_for device_id (j ∷ js) = text_eq j.device_id device_id || asks_for device_id js

pub asks_for-append :
    (device_id : Text) (js : List Job) (j : Job)
    → asks_for device_id (js ++ j ∷ []) ≡ asks_for device_id js || text_eq j.device_id device_id
unfolding asks_for
asks_for-append device_id [] j = ground arith
asks_for-append device_id (k ∷ js) j = ground (arith, asks_for-append device_id js j)

-- The row is not the device's, or has run at that time.
abbrev pub last_is : ℕ → Option ℕ → Bool
last_is now none = false
last_is now (some t) = t == now

abbrev pub has_run : Text → ℕ → TheftState → Bool
has_run device_id now r = not (text_eq r.device_id device_id) || last_is now r.last_run

abbrev pub AllRan : Text → ℕ → List TheftState → Type 0
AllRan device_id now rows = All (λ r. has_run device_id now r ≡ true) rows

-- Marking a device makes its rows run, and unmakes none.
pub AllRan-mark :
    (device_id : Text) (now : ℕ) (rows : List TheftState)
    → AllRan device_id now
        (update (state_of device_id) (λ r. record r { last_run = some now }) rows)
unfolding update
AllRan-mark device_id now [] = tt
AllRan-mark device_id now (r ∷ rows) = (ground arith, AllRan-mark device_id now rows)

pub AllRan-update :
    (device_id other : Text) (now : ℕ) (rows : List TheftState)
    → AllRan device_id now rows
    → AllRan device_id now (update (state_of other) (λ r. record r { last_run = some now }) rows)
unfolding update
AllRan-update device_id other now [] h = tt
AllRan-update device_id other now (r ∷ rows) h =
    (ground (arith, h.0), AllRan-update device_id other now rows h.1)

pub AllRan-select :
    (device_id : Text) (now : ℕ) (p : TheftState → Bool) (rows : List TheftState)
    → AllRan device_id now rows
    → AllRan device_id now (select p rows)
unfolding select
AllRan-select device_id now p [] h = tt
AllRan-select device_id now p (r ∷ rows) h = elim (Bool-cases (p r)) [
  | inl e ↦ rw e (h.0, AllRan-select device_id now p rows h.1)
  | inr e ↦ rw e (AllRan-select device_id now p rows h.1)
]

-- The same of the rows that a tick reads.
abbrev pub AllRanRows : Text → ℕ → List (TheftState × ℕ) → Type 0
AllRanRows device_id now rows = All (λ r. has_run device_id now r.0 ≡ true) rows

pub AllRan-with_owner :
    (device_id : Text) (now : ℕ) (devices : List Device) (rows : List TheftState)
    → AllRan device_id now rows
    → AllRanRows device_id now (with_owner devices rows)
unfolding with_owner
AllRan-with_owner device_id now devices [] h = tt
AllRan-with_owner device_id now devices (r ∷ rows) h =
    elim (Option-cases (find (λ (d : Device). text_eq d.id r.device_id) devices)) [
      | inl e ↦ rw (e, with_owner) (AllRan-with_owner device_id now devices rows h.1)
      | inr (d, e) ↦ rw (e, with_owner) (h.0, AllRan-with_owner device_id now devices rows h.1)
    ]

pub waits_at :
    (now later interval : ℕ) (last : Option ℕ)
    → now ≤ later
    → later < now + 30
    → last_is now last ≡ true
    → leb (interval_of interval) (later - last_of last) ≡ false
waits_at now later zero none l w h = ground arith
waits_at now later (suc n) none l w h = ground arith
waits_at now later zero (some t) l w h = ground arith
waits_at now later (suc n) (some t) l w h = ground arith

-- Marking another device unmakes no row of this one.
pub AllRan-other :
    (device_id other : Text) (now later : ℕ) (rows : List TheftState)
    → text_eq other device_id ≡ false
    → AllRan device_id now rows
    → AllRan device_id now (update (state_of other) (λ r. record r { last_run = some later }) rows)
unfolding update
AllRan-other device_id other now later [] d h = tt
AllRan-other device_id other now later (r ∷ rows) d h =
    elim (Bool-cases (text_eq r.device_id other)) [
      | inl z ↦ (
        rw z (rw ((text_eq_iff r.device_id other).0 z) (ground (arith, d))),
        AllRan-other device_id other now later rows d h.1,
      )
      | inr z ↦ (rw z h.0, AllRan-other device_id other now later rows d h.1)
    ]
