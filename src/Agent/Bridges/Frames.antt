-- ===== src/Agent/Bridges/Frames.antt =====
-- agent/camera_bridge.py: `_stream_from_socket`, the frames of a driver's stream.
use vortex_portal.Base.{
  ℕ, zero, suc, ◌+◌, ◌*◌, ◌/◌, ◌%◌, true, false, none, some, List, [], ◌∷◌, ltb, ◌==◌,
}
use vortex_portal.Router.Connection.{Bytes}
use vortex_portal.Agent.Bridges.Socket.{Socket, read_exact}

-- struct.pack(">I", n)
unfoldable pub pack : ℕ → Bytes
pack n = n / 16777216 % 256 ∷ n / 65536 % 256 ∷ n / 256 % 256 ∷ n % 256 ∷ []

-- struct.unpack(">I", header), of four bytes
unfoldable pub unpack : Bytes → ℕ
unpack [] = 0
unpack (a ∷ []) = 0
unpack (a ∷ b ∷ []) = 0
unpack (a ∷ b ∷ c ∷ []) = 0
unpack (a ∷ b ∷ c ∷ d ∷ _) = a * 16777216 + b * 65536 + c * 256 + d

abbrev pub max_frame_bytes : ℕ
max_frame_bytes = 8 * 1024 * 1024

module _ (k : Socket) where
  open k use {State}

  -- The frames that the generator yields, on fuel for the rounds of its loop. Every exception ends
  -- the stream.
  unfoldable pub frames : ℕ → State → List Bytes
  unfolding read_exact unpack
  frames zero s = []
  frames (suc fuel) s = elim (read_exact k 4 s) [
    | none ↦ []
    | some (header, s1) ↦ elim (unpack header == 0) [
      | true ↦ frames fuel s1
      | false ↦ elim (ltb max_frame_bytes (unpack header)) [
        | true ↦ []
        | false ↦ elim (read_exact k (unpack header) s1) [
          | none ↦ []
          | some (body, s2) ↦ body ∷ frames fuel s2
        ]
      ]
    ]
  ]
