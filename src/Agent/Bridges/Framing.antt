-- ===== src/Agent/Bridges/Framing.antt =====
-- agent/camera_bridge.py and agent/input_bridge.py: reading is independent of how the bytes arrive.
use vortex_portal.Base.{
  ℕ, zero, suc, ◌+◌, ◌-◌, ◌<◌, ◌≤◌, ◌≡◌, ◌⊎◌, refl, sym, ap, ◌∙◌, inl, inr, true, false, none, some,
  List, [], ◌∷◌, ◌++◌, length, length-append, take, ltb, ◌==◌, arith, All,
}
use mathlib.Core.List.{append_assoc, append-nil}
use vortex_portal.Router.Connection.{Bytes}
use vortex_portal.Agent.Bridges.Socket.{Socket, read_loop, read_exact}
use vortex_portal.Agent.Bridges.Frames.{pack, unpack, max_frame_bytes, frames}

pub unpack-pack : (n : ℕ) → n < 4294967296 → unpack (pack n) ≡ n
unfolding unpack pack
unpack-pack n h = omega arith

take_exactly : (xs ys : Bytes) → take (length xs) (xs ++ ys) ≡ xs
take_exactly [] ys = refl
take_exactly (x ∷ xs) ys = ap (λ l. x ∷ l) (take_exactly xs ys)

-- Two splits of one list at different places: the longer head begins with the shorter one.
split_at :
    (b rest want more : Bytes)
    → b ++ rest ≡ want ++ more
    → length b ≤ length want
    → (mid : Bytes) × (want ≡ b ++ mid) × (rest ≡ mid ++ more)
split_at [] rest want more e l = (want, refl, e)
split_at (x ∷ b) rest [] more e l = absurd (omega arith)
split_at (x ∷ b) rest (y ∷ want) more e l =
    let (mid, w, r) = split_at b rest want more (ground arith) (omega arith) in
    (mid, ground arith, r)

module _ (k : Socket) where
  open k use {State, recv, content, recv_some, recv_end}

  read_loop_step :
      (fuel remaining b : ℕ) (chunks bs : Bytes) (s s' : State)
      → recv (suc remaining) s ≡ some (b ∷ bs, s')
      → read_loop k (suc fuel) (suc remaining) chunks s
        ≡ read_loop k fuel (suc remaining - length (b ∷ bs)) (chunks ++ b ∷ bs) s'
  unfolding read_loop
  read_loop_step fuel remaining b chunks bs s s' h = rw (h, read_loop) refl

  read_loop_lem :
      (fuel remaining : ℕ) (chunks want more : Bytes) (s : State)
      → remaining ≤ fuel
      → length want ≡ remaining
      → content s ≡ want ++ more
      → (s' : State) × (read_loop k fuel remaining chunks s ≡ some (chunks ++ want, s'))
        × (content s' ≡ more)
  unfolding read_loop
  read_loop_lem fuel zero chunks [] more s f l e =
      (s, ap (λ c. some (c, s)) (sym (append-nil chunks)), e)
  read_loop_lem fuel zero chunks (w ∷ want) more s f l e = absurd (omega arith)
  read_loop_lem zero (suc remaining) chunks want more s f l e = absurd (omega arith)
  read_loop_lem (suc fuel) (suc remaining) chunks want more s f l e =
      let some_left : 0 < length (content s) =
        omega (arith, ap length e, length-append want more) in
      let (b, s1, got, pos, short, c) = recv_some (suc remaining) s (omega arith) some_left in
      let (mid, w, rest) = split_at b (content s1) want more (sym c ∙ e) (omega arith) in
      step b mid s1 got pos w rest (λ n bs. read_loop_lem fuel n bs mid more s1)
    where
      step :
          (b mid : Bytes) (s1 : State)
          → recv (suc remaining) s ≡ some (b, s1)
          → 0 < length b
          → want ≡ b ++ mid
          → content s1 ≡ mid ++ more
          → ((n : ℕ) (bs : Bytes)
              → n ≤ fuel
              → length mid ≡ n
              → content s1 ≡ mid ++ more
              → (s' : State) × (read_loop k fuel n bs s1 ≡ some (bs ++ mid, s'))
                × (content s' ≡ more))
          → (s' : State) × (read_loop k (suc fuel) (suc remaining) chunks s
              ≡ some (chunks ++ want, s'))
            × (content s' ≡ more)
      step [] mid s1 got pos w rest rec = absurd (omega arith)
      step (x ∷ b) mid s1 got pos w rest rec =
          let lengths = length-append (x ∷ b) mid in
          let (s', r, done) =
            rec (suc remaining - length (x ∷ b)) (chunks ++ x ∷ b) (omega arith)
              (omega (arith, ap length w, lengths)) rest in
          (
            s',
            read_loop_step fuel remaining x chunks b s s1 got
                ∙ r
                ∙ ap (λ c. some (c, s'))
                    (append_assoc chunks (x ∷ b) mid ∙ ap (λ t. chunks ++ t) (sym w)),
            done,
          )

  -- `_read_exact` gives exactly the next n bytes, however the socket cuts them, and leaves the rest
  -- for the next read.
  pub read_exact_lem :
      (want more : Bytes) (s : State)
      → content s ≡ want ++ more
      → (s' : State) × (read_exact k (length want) s ≡ some (want, s')) × (content s' ≡ more)
  unfolding read_exact
  read_exact_lem want more s e =
      read_loop_lem (length want) (length want) [] want more s (omega arith) refl e

  read_loop_fuel :
      (remaining : ℕ) (chunks : Bytes) (s : State)
      → read_loop k zero (suc remaining) chunks s ≡ none
  unfolding read_loop
  read_loop_fuel remaining chunks s = refl

  read_loop_stop :
      (fuel remaining : ℕ) (chunks : Bytes) (s : State)
      → (recv (suc remaining) s ≡ none) ⊎ ((s' : State) × (recv (suc remaining) s ≡ some ([], s')))
      → read_loop k fuel (suc remaining) chunks s ≡ none
  unfolding read_loop
  read_loop_stop zero remaining chunks s h = refl
  read_loop_stop (suc fuel) remaining chunks s (inl h) = rw (h, read_loop) refl
  read_loop_stop (suc fuel) remaining chunks s (inr (s', h)) = rw (h, read_loop) refl

  -- A connection that ends before the last byte makes the loop raise.
  read_loop_short :
      (fuel remaining : ℕ) (chunks left : Bytes) (s : State)
      → content s ≡ left
      → length left < remaining
      → read_loop k fuel remaining chunks s ≡ none
  read_loop_short fuel zero chunks left s e l = absurd (omega arith)
  read_loop_short fuel (suc remaining) chunks [] s e l =
      read_loop_stop fuel remaining chunks s (recv_end (suc remaining) s e)
  read_loop_short zero (suc remaining) chunks (x ∷ left) s e l = read_loop_fuel remaining chunks s
  read_loop_short (suc fuel) (suc remaining) chunks (x ∷ left) s e l =
      let (b, s1, got, pos, short, c) =
        recv_some (suc remaining) s (omega arith) (omega (arith, ap length e)) in
      step b s1 got pos (omega (arith, ap length (sym c ∙ e), length-append b (content s1)))
        (λ n bs. read_loop_short fuel n bs (content s1) s1 refl)
    where
      step :
          (b : Bytes) (s1 : State)
          → recv (suc remaining) s ≡ some (b, s1)
          → 0 < length b
          → length b + length (content s1) ≤ remaining
          → ((n : ℕ) (bs : Bytes) → length (content s1) < n → read_loop k fuel n bs s1 ≡ none)
          → read_loop k (suc fuel) (suc remaining) chunks s ≡ none
      step [] s1 got pos m rec = absurd (omega arith)
      step (y ∷ b) s1 got pos m rec =
          read_loop_step fuel remaining y chunks b s s1 got
          ∙ rec (suc remaining - length (y ∷ b)) (chunks ++ y ∷ b) (omega arith)

  pub read_exact_short : (n : ℕ) (s : State) → length (content s) < n → read_exact k n s ≡ none
  unfolding read_exact
  read_exact_short n s l = read_loop_short n n [] (content s) s refl l

-- What may stand behind the frames of a stream: nothing, or a header whose length is over the cap.
abbrev pub EndsStream : Bytes → Type 0
EndsStream more =
    (length more < 4)
    ⊎ ((n : ℕ) × (rest : Bytes) × (max_frame_bytes < n)
        × (n < 4294967296)
        × (more ≡ pack n ++ rest))

-- The frames as the driver writes them.
unfoldable pub encode : List Bytes → Bytes
encode [] = []
encode (frame ∷ more) = pack (length frame) ++ (frame ++ encode more)

-- The frames that have a body.
unfoldable pub bodies : List Bytes → List Bytes
bodies [] = []
bodies ([] ∷ more) = bodies more
bodies ((b ∷ bs) ∷ more) = (b ∷ bs) ∷ bodies more

abbrev pub FitsCap : Bytes → Type 0
FitsCap frame = length frame ≤ max_frame_bytes

module _ (k : Socket) where
  open k use {State, content}

  frames_empty :
      (fuel : ℕ) (s s1 : State) (header : Bytes)
      → read_exact k 4 s ≡ some (header, s1)
      → (unpack header == 0) ≡ true
      → frames k (suc fuel) s ≡ frames k fuel s1
  unfolding frames pack
  frames_empty fuel s s1 header got z = rw (got, frames) (rw z refl)

  frames_over :
      (fuel : ℕ) (s s1 : State) (header : Bytes)
      → read_exact k 4 s ≡ some (header, s1)
      → (unpack header == 0) ≡ false
      → ltb max_frame_bytes (unpack header) ≡ true
      → frames k (suc fuel) s ≡ []
  unfolding frames pack
  frames_over fuel s s1 header got z big = rw (got, frames) (rw (z, big) refl)

  frames_body :
      (fuel : ℕ) (s s1 s2 : State) (header body : Bytes)
      → read_exact k 4 s ≡ some (header, s1)
      → (unpack header == 0) ≡ false
      → ltb max_frame_bytes (unpack header) ≡ false
      → read_exact k (unpack header) s1 ≡ some (body, s2)
      → frames k (suc fuel) s ≡ body ∷ frames k fuel s2
  unfolding frames pack
  frames_body fuel s s1 s2 header body got z small read =
      rw (got, frames) (rw (z, small, read) refl)

  frames-end :
      (fuel : ℕ) (more : Bytes) (s : State)
      → content s ≡ more
      → EndsStream more
      → frames k fuel s ≡ []
  unfolding frames pack
  frames-end zero more s e t = refl
  frames-end (suc fuel) more s e (inl short) =
      rw (read_exact_short k 4 s (omega (arith, ap length e)), frames) refl
  frames-end (suc fuel) more s e (inr (n, rest, big, small, w)) =
      let (s1, got, left) = read_exact_lem k (pack n) rest s (e ∙ w) in
      frames_over fuel s s1 (pack n) got (ground (arith, unpack-pack n small))
        (ground (arith, unpack-pack n small))

  -- The generator yields exactly the bodies that the driver wrote, in their order and however TCP
  -- cuts the bytes, passes over empty frames, and ends at the end of the stream or at a header
  -- over the cap.
  pub frames_round_trip :
      (fs : List Bytes) (more : Bytes) (fuel : ℕ) (s : State)
      → content s ≡ encode fs ++ more
      → All FitsCap fs
      → EndsStream more
      → length fs ≤ fuel
      → frames k fuel s ≡ bodies fs
  unfolding frames encode bodies pack
  frames_round_trip [] more fuel s e h t l = frames-end fuel more s e t
  frames_round_trip (f ∷ fs) more zero s e h t l = absurd (omega arith)
  frames_round_trip ([] ∷ fs) more (suc fuel) s e h t l =
      let (s1, got, left) =
        read_exact_lem k (pack 0) (encode fs ++ more) s
          (e ∙ append_assoc (pack 0) (encode fs) more) in
      frames_empty fuel s s1 (pack 0) got (ground arith)
      ∙ frames_round_trip fs more fuel s1 left h.1 t (omega arith)
  frames_round_trip ((b ∷ bs) ∷ fs) more (suc fuel) s e h t l =
      let n = length (b ∷ bs) in
      let u : unpack (pack n) ≡ n = unpack-pack n (omega (arith, h.0)) in
      let (s1, got, left) = read_exact_lem k (pack n) ((b ∷ bs) ++ (encode fs ++ more)) s (
        e
        ∙ append_assoc (pack n) ((b ∷ bs) ++ encode fs) more
        ∙ ap (λ t. pack n ++ t) (append_assoc (b ∷ bs) (encode fs) more)) in
      let (s2, body, rest) = read_exact_lem k (b ∷ bs) (encode fs ++ more) s1 left in
      frames_body fuel s s1 s2 (pack n) (b ∷ bs) got (ground (arith, u)) (ground (arith, u, h.0))
        (ap (λ m. read_exact k m s1) u ∙ body)
      ∙ ap (λ l. (b ∷ bs) ∷ l) (frames_round_trip fs more fuel s2 rest h.1 t (omega arith))
