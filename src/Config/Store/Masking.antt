-- ===== src/Config/Store/Masking.antt =====
-- hub/config.py, `Config`: what the Settings page may learn and change.
use vortex_portal.Base.{
  ℕ, ◌≤◌, ◌<◌, ◌≡◌, ◌⊎◌, refl, ap, ◌∙◌, Bool, true, false, Option, none, some, List, [], ◌∷◌,
  if◌then◌else◌, arith, length, All, map, Bool-cases, inl, inr,
}
use vortex_portal.Base.Text.{Text, text_eq, text_eq_iff, text_eq_refl, non_empty}
use vortex_portal.Base.Json.{Json, text}
use vortex_portal.Base.Dict.{Dict, get, get-put, get-remove}
use vortex_portal.Config.Store.{
  Setting, settings_spec, at_least, pos, negsuc, view_with, spec_of, ℤ, last_four, hint_of,
  set_many, get_setting, source_of, public_view, view_of, write_key,
}

le-at_least : (low : ℕ) (n : ℤ) → low ≤ at_least low n
le-at_least low (pos n) = omega arith
le-at_least low (negsuc n) = omega arith

-- A setting's value as `set_many` takes it: a blank secret, a blank, or a value.
abbrev kept_or : Bool → Text → Option Json → Option Json
kept_or true [] old = old
kept_or false [] old = none
kept_or b (c ∷ v) old = some (text (c ∷ v))

write_key-get :
    (k j v : Text) (s : Option Setting) (file : Dict Json)
    → text_eq k j ≡ false
    → get j (write_key k v s file) ≡ get j file
write_key-get k j v none file h = refl
write_key-get k j v (some s) file h = ground (arith, get-put k j (text v) file, get-remove k j file)

write_key_self :
    (k v : Text) (s : Setting) (file : Dict Json)
    → get k (write_key k v (some s) file) ≡ kept_or s.secret v (get k file)
write_key_self k [] s file = ground (arith, get-remove k k file, text_eq_refl k)
write_key_self k (c ∷ v) s file = ground (arith, get-put k k (text (c ∷ v)) file, text_eq_refl k)

set_many-absent :
    (values : Dict Text) (file : Dict Json) (k : Text)
    → get k values ≡ none
    → get k (set_many values file) ≡ get k file
unfolding set_many get
set_many-absent [] file k h = refl
set_many-absent ((j, v) ∷ values) file k h =
    let other : text_eq j k ≡ false = ground arith in
    set_many-absent values (write_key j v (spec_of j) file) k (ground arith)
    ∙ write_key-get j k v (spec_of j) file other

-- A dictionary has each key once.
abbrev pub IsDict : Dict Text → Type 0
IsDict [] = Unit
IsDict ((k, v) ∷ d) = (get k d ≡ none) × IsDict d

set_many_value :
    (values : Dict Text) (file : Dict Json) (k v : Text) (s : Setting)
    → IsDict values
    → get k values ≡ some v
    → spec_of k ≡ some s
    → get k (set_many values file) ≡ kept_or s.secret v (get k file)
unfolding set_many get
set_many_value [] file k v s d h e = absurd (ground arith)
set_many_value ((j, w) ∷ values) file k v s d h e = elim (Bool-cases (text_eq j k)) [
  | inl same ↦
      let jk = (text_eq_iff j k).0 same in
      let wv : w ≡ v = ground arith in
      set_many-absent values (write_key j w (spec_of j) file) k (ground arith)
      ∙ rw (jk, wv, e) (write_key_self k v s file)
  | inr other ↦
      set_many_value values (write_key j w (spec_of j) file) k v s d.1 (ground arith) e
      ∙ ap (kept_or s.secret v) (write_key-get j k w (spec_of j) file other)
]

-- What a submission leaves in config.json: a known key takes the value given; left blank, it is
-- cleared, but a secret stays what it was; a key that is not submitted keeps its value.
pub set_many_lem :
    (values : Dict Text) (file : Dict Json) (k v other : Text) (s : Setting)
    → IsDict values
    → get k values ≡ some v
    → spec_of k ≡ some s
    → get other values ≡ none
    → (get k (set_many values file)
        ≡ (if non_empty v then some (text v) else if s.secret then get k file else none))
      × (get other (set_many values file) ≡ get other file)
set_many_lem values file k v other s d h e a =
    (set_many_value values file k v s d h e ∙ blank v s.secret, set_many-absent values file other a)
  where
    blank :
        (v : Text) (b : Bool)
        → kept_or b v (get k file)
          ≡ (if non_empty v then some (text v) else if b then get k file else none)
    blank [] true = refl
    blank [] false = refl
    blank (c ∷ v) true = refl
    blank (c ∷ v) false = refl

module _ (show : Json → Text) where
  -- Two values of a secret that the settings page should not tell apart: both have one to three
  -- characters, or both have four or more and end in the same four.
  abbrev pub AreMasked : Text → Text → Type 0
  AreMasked v v' =
      ((1 ≤ length v) × (length v < 4) × (1 ≤ length v') × (length v' < 4))
      ⊎ ((4 ≤ length v) × (4 ≤ length v') × (last_four v ≡ last_four v'))

  -- Two stores, with their environments, at one setting: the value comes from the same place, and it
  -- is the same or both are masked.
  abbrev pub LooksAlike : Dict Text → Dict Text → Dict Json → Dict Json → Setting → Type 0
  LooksAlike environ environ' file file' s =
      let v = get_setting show environ file s.key none in
      let v' = get_setting show environ' file' s.key none in
      (source_of show environ file s.key ≡ source_of show environ' file' s.key)
      × ((v ≡ v') ⊎ ((s.secret ≡ true) × AreMasked v v'))

  hint_of-alike : (v v' : Text) → AreMasked v v' → hint_of v ≡ hint_of v'
  hint_of-alike [] v' (inl (p, h, q, k)) = absurd (omega arith)
  hint_of-alike (c ∷ v) [] (inl (p, h, q, k)) = absurd (omega arith)
  hint_of-alike (c ∷ v) (d ∷ w) (inl (p, h, q, k)) = ground arith
  hint_of-alike [] v' (inr (h, k, e)) = absurd (omega arith)
  hint_of-alike (c ∷ v) [] (inr (h, k, e)) = absurd (omega arith)
  hint_of-alike (c ∷ v) (d ∷ w) (inr (h, k, e)) = ground arith

  view_of-alike :
      (environ environ' : Dict Text) (file file' : Dict Json) (s : Setting)
      → LooksAlike environ environ' file file' s
      → view_of show environ file s ≡ view_of show environ' file' s
  unfolding view_of
  view_of-alike environ environ' file file' s h =
      view_by (get_setting show environ file s.key none)
        (get_setting show environ' file' s.key none) h.1
    where
      view_by :
          (v v' : Text)
          → (v ≡ v') ⊎ ((s.secret ≡ true) × AreMasked v v')
          → view_with s v (source_of show environ file s.key)
            ≡ view_with s v' (source_of show environ' file' s.key)
      view_by v v' (inl e) = rw (e, h.0) refl
      view_by v v' (inr (b, m)) = rw (b, h.0, hint_of-alike v v' m) refl

  -- The settings page shows of a secret that is set nothing but where it comes from, whether it has
  -- four characters, and if it has, the last four: two stores and environments that agree on those,
  -- and on the settings that are no secrets, give the same page.
  pub public_view-masks :
      (environ environ' : Dict Text) (file file' : Dict Json)
      → All (LooksAlike environ environ' file file') settings_spec
      → public_view show environ file ≡ public_view show environ' file'
  unfolding public_view
  public_view-masks environ environ' file file' = go settings_spec
    where
      go :
          (l : List Setting)
          → All (LooksAlike environ environ' file file') l
          → map (view_of show environ file) l ≡ map (view_of show environ' file') l
      go [] h = refl
      go (s ∷ l) h = cc (view_of-alike environ environ' file file' s h.0, go l h.1)
