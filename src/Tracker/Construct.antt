-- ===== src/Tracker/Construct.antt =====
-- `NewTracker` of svc/tracker.go: the database of failed synchronisations, and the hash.
use eggdfs.Base.{false, [], Option, none, some, Outcome, done, ◌>>=◌}
use eggdfs.Base.Text.{Text, bytes}
use eggdfs.Db.{new_egg_db}
use eggdfs.Tracker.{Tracker}

-- The state of a new tracker, with the database as it was found.
unfoldable pub new_tracker : {S : Type 0} → S → Tracker S
new_tracker d = record { groups = []; sync_db = d; locked = false }

unfoldable pub sync_err : Text
sync_err = bytes "sync-err"

-- `checksum` is `crc32.ChecksumIEEE`.
unfoldable pub tracker_hash : {H : Type 0} → H → Option H → H
tracker_hash checksum fn = elim fn [ none ↦ checksum | some h ↦ h ]

-- The tracker and the hash that it selects storages with. `open_file` is `leveldb.OpenFile`.
unfoldable pub start_tracker :
    {S H : Type 0} → (Text → Option S) → H → Option H → Outcome (Tracker S × H)
unfolding new_egg_db new_tracker tracker_hash sync_err
start_tracker open_file checksum fn = do
  db ← new_egg_db open_file sync_err
  done (new_tracker db, tracker_hash checksum fn)
