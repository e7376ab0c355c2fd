-- ===== src/Config/Env/Quoted.antt =====
-- hub/config.py, `_parse_env`: a quoted line reads back.
use vortex_portal.Base.{ℕ, ◌≡◌, ◌≢◌, ◌⊎◌, refl, ap, Bool, false, some, [], ◌∷◌, ◌++◌, arith, All}
use mathlib.Core.List.{append_assoc}
use mathlib.Core.Path.{subst}
use vortex_portal.Base.Text.{Text, codes, strip, rstrip, is_space, starts_with}
use vortex_portal.Config.Env.{partition, last, init, unquote, strip_export, parse_line}

-- A name of a variable: not empty, with no white space and no "=", and no "#" in front.
abbrev pub IsKey : Text → Type 0
IsKey [] = ⊥
IsKey (c ∷ s) = (c ≢ b'#') × All (λ d. (is_space d ≡ false) × (d ≢ b'=')) (c ∷ s)

rstrip-last : (p : ℕ → Bool) (s : Text) (c : ℕ) → p c ≡ false → rstrip p (s ++ c ∷ []) ≡ s ++ c ∷ []
unfolding rstrip
rstrip-last p [] c h = ground arith
rstrip-last p (d ∷ []) c h = ground arith
rstrip-last p (d ∷ e ∷ s) c h = ground (arith, rstrip-last p (e ∷ s) c h)

rstrip-clean : (s : Text) → All (λ d. (is_space d ≡ false) × (d ≢ b'=')) s → rstrip is_space s ≡ s
unfolding rstrip
rstrip-clean [] h = refl
rstrip-clean (c ∷ s) h = ground (arith, rstrip-clean s h.1)

strip-ends :
    (c d : ℕ) (s : Text)
    → is_space c ≡ false
    → is_space d ≡ false
    → strip (c ∷ s ++ d ∷ []) ≡ c ∷ s ++ d ∷ []
unfolding strip
strip-ends c d s h k = rw h (rstrip-last is_space (c ∷ s) d k)

strip-IsKey : (key : Text) → IsKey key → strip key ≡ key
unfolding strip
strip-IsKey [] h = refl
strip-IsKey (c ∷ s) h = rw (h.1.0.0) (rstrip-clean (c ∷ s) h.1)

partition-key :
    (key rest : Text)
    → All (λ d. (is_space d ≡ false) × (d ≢ b'=')) key
    → partition (key ++ b'=' ∷ rest) ≡ some (key, rest)
unfolding partition
partition-key [] rest h = refl
partition-key (c ∷ key) rest h = ground (arith, partition-key key rest h.1)

last-append : (c q : ℕ) (s : Text) → last c (s ++ q ∷ []) ≡ q
unfolding last
last-append c q [] = refl
last-append c q (d ∷ s) = last-append d q s

init-append : (c q : ℕ) (s : Text) → init c (s ++ q ∷ []) ≡ c ∷ s
unfolding init
init-append c q [] = refl
init-append c q (d ∷ s) = ap (◌∷◌ c) (init-append d q s)

unquote-quoted : (q : ℕ) (val : Text) → (q ≡ b'\'') ⊎ (q ≡ b'"') → unquote (q ∷ val ++ q ∷ []) ≡ val
unfolding unquote
unquote-quoted q [] h = ground arith
unquote-quoted q (c ∷ val) h = ground (arith, last-append c q val, init-append c q val)

quote-is_space : (q : ℕ) → (q ≡ b'\'') ⊎ (q ≡ b'"') → is_space q ≡ false
unfolding is_space
quote-is_space q h = ground arith

-- A key has no space, so it does not begin with a text that ends in one.
starts_with-space :
    (p key : Text)
    → All (λ d. (is_space d ≡ false) × (d ≢ b'=')) key
    → starts_with (p ++ 32 ∷ []) key ≡ false
unfolding starts_with is_space
starts_with-space [] [] h = refl
starts_with-space [] (c ∷ key) h = ground arith
starts_with-space (e ∷ p) [] h = refl
starts_with-space (e ∷ p) (c ∷ key) h = ground (arith, starts_with-space p key h.1)

strip_export-clean :
    (key : Text) → All (λ d. (is_space d ≡ false) × (d ≢ b'=')) key → strip_export key ≡ key
unfolding strip_export
strip_export-clean key h = rw (starts_with-space (codes "export") key h) refl

starts_with-hash : (c : ℕ) (s : Text) → c ≢ b'#' → starts_with (codes "#") (c ∷ s) ≡ false
unfolding starts_with
starts_with-hash c s h = ground arith

-- A line KEY="value" or KEY='value' gives the key and exactly the value, whatever characters the
-- value holds.
pub parse_line-quoted :
    (key val : Text) (q : ℕ)
    → IsKey key
    → (q ≡ b'\'') ⊎ (q ≡ b'"')
    → parse_line (key ++ b'=' ∷ (q ∷ val ++ q ∷ [])) ≡ some (key, val)
unfolding parse_line
parse_line-quoted [] val q h k = absurd h
parse_line-quoted (c ∷ s) val q h k =
    let blank = quote-is_space q k in
    let whole : strip ((c ∷ s) ++ b'=' ∷ (q ∷ val ++ q ∷ []))
        ≡ (c ∷ s) ++ b'=' ∷ (q ∷ val ++ q ∷ []) =
      subst (λ (t : Text). strip t ≡ t) (append_assoc (c ∷ s) (b'=' ∷ q ∷ val) (q ∷ []))
        (strip-ends c q (s ++ b'=' ∷ q ∷ val) h.1.0.0 blank) in
    rw
      (
        whole,
        starts_with-hash c _ h.0,
        partition-key (c ∷ s) (q ∷ val ++ q ∷ []) h.1,
        strip-IsKey (c ∷ s) h,
        strip_export-clean (c ∷ s) h.1,
        strip-ends q q val blank blank,
        unquote-quoted q val k,
      )
      refl
