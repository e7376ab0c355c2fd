-- ===== src/Agent/Bridges/Socket.antt =====
-- What the bridges use of a socket, and `_read_exact`, which both bridges have. A socket is not
-- code of this repository: it is a parameter with what TCP promises of `recv`.
use vortex_portal.Base.{
  ℕ, zero, suc, ◌-◌, ◌<◌, ◌≤◌, ◌≡◌, ◌⊎◌, Option, none, some, [], ◌∷◌, ◌++◌, length,
}
use vortex_portal.Router.Connection.{Bytes}

-- `content s` are the bytes that the peer will still send before it closes or falls silent. As long
-- as there are some, `recv n` gives between 1 and n of them; then it gives b"" or raises. The
-- second part of the result is the socket afterwards, and none is an exception.
pub record Socket : Type 1 where
  pub State : Type 0
  pub recv : ℕ → State → Option (Bytes × State)
  pub content : State → Bytes
  pub recv_some :
      (n : ℕ) (s : State)
      → 0 < n
      → 0 < length (content s)
      → (b : Bytes) × (s' : State) × (recv n s ≡ some (b, s'))
        × (0 < length b)
        × (length b ≤ n)
        × (content s ≡ b ++ content s')
  pub recv_end :
      (n : ℕ) (s : State)
      → content s ≡ []
      → (recv n s ≡ none) ⊎ ((s' : State) × (recv n s ≡ some ([], s')))

module _ (k : Socket) where
  open k use {State, recv}

  -- The loop of `_read_exact`, on fuel for the rounds; none is an exception.
  unfoldable pub read_loop : ℕ → ℕ → Bytes → State → Option (Bytes × State)
  read_loop fuel zero chunks s = some (chunks, s)
  read_loop zero (suc remaining) chunks s = none
  read_loop (suc fuel) (suc remaining) chunks s = elim (recv (suc remaining) s) [
    | none ↦ none
    | some (chunk, s') ↦ elim chunk [
      | [] ↦ none
      | b ∷ bs ↦ read_loop fuel (suc remaining - length (b ∷ bs)) (chunks ++ b ∷ bs) s'
    ]
  ]

  -- Each round takes a byte at least, so that n rounds are enough.
  unfoldable pub read_exact : ℕ → State → Option (Bytes × State)
  unfolding read_loop
  read_exact n s = read_loop n n [] s
