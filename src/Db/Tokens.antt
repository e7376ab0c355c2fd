-- ===== src/Db/Tokens.antt =====
-- hub/db.py, "Account enrollment tokens".
use vortex_portal.Base.{
  ℕ, suc, Bool, ◌&&◌, not, Option, none, some, List, [], ◌∷◌, ◌++◌, if◌then◌else◌, ltb, ◌==◌,
  is_some, take,
}
use vortex_portal.Base.Text.{Text, text_eq, strip, non_empty, or_none, or_empty}
use vortex_portal.Base.Table.{find, select, delete, update, matches}
use vortex_portal.Base.Sort.{order_by}
use vortex_portal.Db.Schema.{Db, AccountToken, Result, ok, integrity_error, user_exists}

-- (label or "").strip()[:60] or None
unfoldable pub clean_label : Option Text → Option Text
clean_label label = or_none (take 60 (strip (or_empty label)))

unfoldable pub list_account_tokens : Db → ℕ → List AccountToken
list_account_tokens db user_id =
    order_by (λ (a b : AccountToken). ltb b.created_at a.created_at)
      (select (λ (r : AccountToken). r.user_id == user_id) db.account_tokens)

-- WHERE id = ? AND user_id = ?
abbrev pub token_of : ℕ → ℕ → AccountToken → Bool
token_of token_id user_id r = r.id == token_id && r.user_id == user_id

unfoldable pub revoke_account_token : Db → ℕ → ℕ → Bool × Db
revoke_account_token db token_id user_id = (
  ltb 0 (matches (token_of token_id user_id) db.account_tokens),
  record db { account_tokens = delete (token_of token_id user_id) db.account_tokens },
)

abbrev pub hashed : Text → AccountToken → Bool
hashed hash r = text_eq r.token_hash hash

-- The row that the SELECT found; the UPDATE bumps `last_used`.
abbrev pub use_token : Db → ℕ → Option AccountToken → Option ℕ × Db
use_token db now none = (none, db)
use_token db now (some row) = (
  some row.user_id,
  record db {
    account_tokens =
        update (λ (r : AccountToken). r.id == row.id) (λ r. record r { last_used = some now })
          db.account_tokens;
  },
)

module _ (hash_token : Text → Text) where
  unfoldable pub create_account_token : Db → ℕ → Option Text → Text → ℕ → Result Db
  unfolding clean_label
  create_account_token db user_id label token now =
      if user_exists db user_id
        && not (is_some (find (hashed (hash_token token)) db.account_tokens))
      then (ok (record db {
        account_tokens =
            db.account_tokens
            ++ (record {
              id = db.next_token;
              user_id = user_id;
              token_hash = hash_token token;
              label = clean_label label;
              created_at = now;
              last_used = none;
            })
              ∷ [];
        next_token = suc db.next_token;
      }))
      else integrity_error

  unfoldable pub account_token_user : Db → Text → ℕ → Option ℕ × Db
  account_token_user db token now =
      if not (non_empty token)
      then (none, db)
      else use_token db now (find (hashed (hash_token token)) db.account_tokens)
