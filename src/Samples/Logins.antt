-- ===== src/Samples/Logins.antt =====
-- The login limiter: two addresses, a thousand ticks to the second.
use vortex_portal.Base.{◌<◌, refl, List, [], ◌∷◌, arith}
use vortex_portal.Base.Text.{codes, text_eq}
use vortex_portal.Base.Dict.{get}
use vortex_portal.Auth.RateLimit.{rate_check}
use vortex_portal.Auth.RateLimit.Lockout
use vortex_portal.Auth.RateLimit.Lockout.{Call, fails, checks, clears, run, no_record}

abbrev guesses : List Call
guesses =
    fails (codes "e") 1000
    ∷ fails (codes "e") 2000
    ∷ clears (codes "f")
    ∷ fails (codes "e") 3000
    ∷ checks (codes "e") 3500
    ∷ fails (codes "e") 4000
    ∷ fails (codes "e") 60000
    ∷ []

five_failures_block_example :
    0
    < (rate_check 1000
        (codes "e")
        299999
        (run 1000 (rate_check 1000 (codes "e") 500 (run 1000 no_record [])).1 guesses)).0
unfolding rate_check get text_eq run
five_failures_block_example =
    Lockout.five_failures_block 1000 (codes "e") [] guesses 500 299999 (omega arith) refl
      (
        (omega arith, omega arith),
        (
          (omega arith, omega arith),
          (
            ground arith,
            (
              (omega arith, omega arith),
              (omega arith, ((omega arith, omega arith), ((omega arith, omega arith), tt))),
            ),
          ),
        ),
      )
      (omega arith) (omega arith)
