-- ===== src/Base/Json.antt =====
-- The values of `json.loads`, and Python's `dict.get`, truth and `or` on them. A number is an
-- integer; no code that is modelled reads a fraction.
use Prim.Native.Nat.{ℕ, zero, suc}
use mathlib.Core.Bool.{Bool, true, false}
use mathlib.Core.List.{[], ◌∷◌}
use vortex_portal.Base.Tests.{if◌then◌else◌}
use vortex_portal.Base.Text.{Text, text_eq}

mutual
  pub data Json : Type 0 where
    null : Json
    bool : Bool → Json
    num : ℕ → Json
    negative : ℕ → Json
    text : Text → Json
    arr : Items → Json
    obj : Fields → Json

  pub data Items : Type 0 where
    nil : Items
    cons : Json → Items → Items

  pub data Fields : Type 0 where
    end : Fields
    field : Text → Json → Fields → Fields

-- d.get(key), None if the key is missing
unfoldable pub lookup : Text → Fields → Json
lookup key end = null
lookup key (field k v fs) = let rest = lookup key fs in if text_eq k key then v else rest

-- bool(v)
abbrev pub truthy : Json → Bool
truthy null = false
truthy (bool b) = b
truthy (num zero) = false
truthy (num (suc n)) = true
truthy (negative n) = true
truthy (text []) = false
truthy (text (c ∷ s)) = true
truthy (arr nil) = false
truthy (arr (cons v vs)) = true
truthy (obj end) = false
truthy (obj (field k v fs)) = true

-- v or w
abbrev pub or_value : Json → Json → Json
or_value v w = if truthy v then v else w
