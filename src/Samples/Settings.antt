-- ===== src/Samples/Settings.antt =====
-- The settings store, and a quoted line of a .env file.
use vortex_portal.Base.Table.{find}
use vortex_portal.Base.{true, false, ◌≡◌, inl, inr, refl, some, [], ◌∷◌, arith}
use vortex_portal.Base.Text.{Text, codes, text_eq, is_space}
use vortex_portal.Base.Json.{Json, text}
use vortex_portal.Base.Dict.{Dict, get}
use vortex_portal.Config.Env.{parse_line}
use vortex_portal.Config.Env.Quoted
use vortex_portal.Config.Store.{Setting, spec_of, set_many, public_view, get_setting, source_of}
use vortex_portal.Config.Store.Masking

parse_line-quoted_example : parse_line (codes "KEY='a # b '") ≡ some (codes "KEY", codes "a # b ")
unfolding is_space
parse_line-quoted_example =
    Quoted.parse_line-quoted (codes "KEY") (codes "a # b ") b'\''
      (omega arith, ((refl, omega arith), ((refl, omega arith), ((refl, omega arith), tt))))
      (inl refl)

abbrev shown : Json → Text
shown _ = []

abbrev stored : Text → Dict Json
stored token = (codes "VORTEX_SYNC_TOKEN", text token) ∷ []

public_view-masks_example :
    public_view shown [] (stored (codes "aaaa1234")) ≡ public_view shown [] (stored (codes "b1234"))
unfolding get_setting source_of get text_eq
public_view-masks_example =
    Masking.public_view-masks shown [] [] (stored (codes "aaaa1234")) (stored (codes "b1234")) (
      (refl, inl refl),
      (
        (refl, inr (refl, inr (omega arith, omega arith, refl))),
        (
          (refl, inl refl),
          (
            (refl, inl refl),
            (
              (refl, inl refl),
              (
                (refl, inl refl),
                (
                  (refl, inl refl),
                  (
                    (refl, inl refl),
                    ((refl, inl refl), ((refl, inl refl), ((refl, inl refl), tt))),
                  ),
                ),
              ),
            ),
          ),
        ),
      ),
    )

abbrev submitted : Dict Text
submitted = (codes "VORTEX_SYNC_TOKEN", []) ∷ (codes "VORTEX_REGISTRATION_MODE", codes "open") ∷ []

abbrev sync_token : Setting
sync_token = record {
  key = codes "VORTEX_SYNC_TOKEN";
  restart = true;
  live = false;
  secret = true;
  default = [];
}

set_many_lem_example :
    (get (codes "VORTEX_SYNC_TOKEN") (set_many submitted (stored (codes "abcd")))
      ≡ some (text (codes "abcd")))
    × (get (codes "VORTEX_LOCK_TTL") (set_many submitted (stored (codes "abcd")))
        ≡ get (codes "VORTEX_LOCK_TTL") (stored (codes "abcd")))
unfolding get text_eq spec_of find
set_many_lem_example =
    Masking.set_many_lem submitted (stored (codes "abcd")) (codes "VORTEX_SYNC_TOKEN") []
      (codes "VORTEX_LOCK_TTL") sync_token (refl, (refl, tt)) refl refl refl
