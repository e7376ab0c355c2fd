-- ===== src/Samples/Captures.antt =====
-- The captures of two devices.
use vortex_portal.Base.{ℕ, ◌≡◌, none, some, [], ◌∷◌, arith, take, drop}
use vortex_portal.Base.Text.{Text, codes}
use vortex_portal.Base.Table.{matches}
use vortex_portal.Db.Schema.{Db, TheftMedia}
use vortex_portal.Db.Theft.{prune_theft_media, paths_of}
use vortex_portal.Db.Theft.Retention
use vortex_portal.Db.Theft.Retention.{HasIds, newest}
use vortex_portal.Samples.{home}

abbrev photo : ℕ → Text → ℕ → TheftMedia
photo id device_id now = record {
  id = id;
  device_id = device_id;
  owner_id = 1;
  kind = codes "photo";
  created_at = now;
  path = some (codes "p");
  mime = none;
  size = none;
  meta = none;
  trigger = codes "auto";
}

abbrev captured : Db
captured = record home {
  theft_media =
      photo 1 (codes "d1") 100
      ∷ photo 2 (codes "d2") 110
      ∷ photo 3 (codes "d1") 120
      ∷ photo 4 (codes "d1") 120
      ∷ [];
}

captured-HasIds : HasIds captured.theft_media
unfolding matches
captured-HasIds i = ground arith

prune_theft_media-keeps_newest_example :
    let (paths, db') = prune_theft_media captured (codes "d1") 2 in
    (newest (codes "d1") db'.theft_media ≡ take 2 (newest (codes "d1") captured.theft_media))
    × (newest (codes "d2") db'.theft_media ≡ newest (codes "d2") captured.theft_media)
    × (paths ≡ paths_of (drop 2 (newest (codes "d1") captured.theft_media)))
prune_theft_media-keeps_newest_example =
    Retention.prune_theft_media-keeps_newest captured (codes "d1") (codes "d2") 2 captured-HasIds
      (ground arith)
