-- ===== src/Tests/Store.antt =====
-- The state store and the lock, on a disk with another deployment's snapshot.
use nslab.Base.{String, ◌≡◌, refl, arith, true, false, none, some, List, [], ◌∷◌}
use nslab.Base.Int.{pos}
use nslab.Base.Texts.{code_points}
use nslab.Json.{Json, str}
use nslab.Error.{Result, ok}
use nslab.Exec.{◌>>=◌, try_except}
use nslab.Exec.Keeps.{Keeps}
use nslab.State.Snapshot.{StateSnapshot, deployed}
use nslab.State.Codec.{
  is_name, is_digest, is_finite, is_valid, snapshot_to_dict, snapshot_from_dict,
}
use nslab.State.Codec.RoundTrip.{from_dict-to_dict}
use nslab.State.Codec.Sorted.{sort_keys, sorted_snapshot}
use nslab.State.Files.{
  Disk, File, Turn, goes, stops, os, blocking, plain, nothing, make_temporary, set_mode, write_text,
  flush, sync_file, close_descriptor, replace, open_descriptor, sync_directory,
}
use nslab.State.Files.Entries.{Entry}
use nslab.State.Store.{
  save, load, delete, state_path, serialize, save_text, ensure_directory, fill, write_synced,
  commit, fsync_directory, cleanup_temporary,
}
use nslab.State.Store.Atomic.{Saved, written, save-Saved}
use nslab.State.Store.Removal.{Deleted, delete-Deleted}
use nslab.State.Store.Others.{save-Keeps}
use nslab.State.Store.Reload.{serialize-ok, load-save}
use nslab.State.Lock.{DeploymentLock, poll, enter}
use nslab.State.Lock.Polling.{poll_enough}
use nslab.State.Lock.Entering.{Entered, enter-Entered}

abbrev other_file : File
other_file = record { text = "{}\n"; mode = 0o644; safe = true }

abbrev disk_with : List Turn → Disk
disk_with turns = record {
  files = ("/run/other.json", other_file) ∷ [];
  durable = [];
  descriptors = [];
  pending = "";
  suffixes = "a" ∷ "b" ∷ [];
  pid = "7";
  turns = turns;
  locked = [];
  clock = 100;
  delays = [];
}

abbrev snapshot : StateSnapshot
snapshot = record {
  schema = 1;
  name = "lab";
  fingerprint = "0123456789abcdef0123456789abcdef0123456789abcdef0123456789abcdef";
  manifest = ("version", str "1") ∷ ("name", str "lab") ∷ [];
  namespaces = ("r1", "ns-r1") ∷ [];
  interfaces = [];
  created_at = "2026-01-01T00:00:00Z";
  status = deployed;
}

abbrev show : Json → String
show j = ""

abbrev one_text : Json → Result String
one_text j = ok "{}"

abbrev read_snapshot : String → Result Json
read_snapshot text = ok (sort_keys (snapshot_to_dict snapshot))

snapshot_valid : is_valid snapshot ≡ true
unfolding is_name is_digest is_finite code_points
snapshot_valid = refl

lab_path : state_path "/run" show "lab" ≡ ok "/run/lab.json"
unfolding state_path is_name code_points
lab_path = refl

lab_text : serialize show one_text snapshot ≡ ok "{}\n"
lab_text = serialize-ok "/run" show one_text read_snapshot snapshot "{}" snapshot_valid refl

-- The rename is interrupted after it took effect.
abbrev failing_disk : Disk
failing_disk = disk_with (
    goes
    ∷ goes
    ∷ goes
    ∷ goes
    ∷ goes
    ∷ goes
    ∷ goes
    ∷ goes
    ∷ goes
    ∷ stops true (os plain "I/O error" none)
    ∷ [])

save-Saved_example :
    Saved "/run/lab.json" none
      (written "{}\n")
      (save "/run" show one_text false snapshot failing_disk).0
      (save "/run" show one_text false snapshot failing_disk).1
save-Saved_example =
    save-Saved "/run" show one_text false snapshot "/run/lab.json" "{}\n" lab_path lab_text
      failing_disk

delete-Deleted_example :
    Deleted "/run/lab.json" none
      (delete "/run" show "lab" (disk_with [])).0
      (delete "/run" show "lab" (disk_with [])).1
delete-Deleted_example = delete-Deleted "/run" show "lab" "/run/lab.json" lab_path (disk_with [])

save-Keeps_example :
    Keeps (Entry "/run/other.json" (some other_file)) (save "/run" show one_text false snapshot)
save-Keeps_example =
    save-Keeps "/run/other.json" other_file "/run/lab.json" (cc) "/run" show one_text false snapshot
      lab_path

saved : (save "/run" show one_text false snapshot (disk_with [])).0 ≡ ok tt
unfolding save serialize snapshot_from_dict snapshot_to_dict is_name is_digest is_finite code_points
    state_path save_text ensure_directory nothing make_temporary fill set_mode write_synced
    write_text flush sync_file close_descriptor commit replace fsync_directory open_descriptor
    sync_directory cleanup_temporary ◌>>=◌ try_except
saved = refl

load-save_example :
    (load "/run" show read_snapshot "lab"
      (record (save "/run" show one_text false snapshot (disk_with [])).1 { turns = [] })).0
    ≡ ok (some (sorted_snapshot snapshot))
load-save_example =
    load-save "/run" show one_text read_snapshot false snapshot "/run/lab.json" "{}" snapshot_valid
      lab_path refl refl (disk_with []) saved

from_dict-to_dict_example : snapshot_from_dict show (snapshot_to_dict snapshot) ≡ ok snapshot
from_dict-to_dict_example = from_dict-to_dict show snapshot snapshot_valid

abbrev lock : DeploymentLock
lock = record {
  root = "/run";
  name = "lab";
  path = "/run/lab.lock";
  timeout = 20;
  file_descriptor = none;
}

abbrev busy : Turn
busy = stops false (os blocking "Resource temporarily unavailable" (some (pos 11)))

poll_enough_example :
    poll lock 25 120 (disk_with (busy ∷ goes ∷ busy ∷ []))
    ≡ poll lock 99 120 (disk_with (busy ∷ goes ∷ busy ∷ []))
poll_enough_example =
    poll_enough lock 120 21 25 99 (disk_with (busy ∷ goes ∷ busy ∷ [])) (omega arith) (omega arith)
      (omega arith)

enter-Entered_example :
    Entered lock 100
      (enter lock (disk_with (goes ∷ goes ∷ goes ∷ goes ∷ busy ∷ []))).0
      (enter lock (disk_with (goes ∷ goes ∷ goes ∷ goes ∷ busy ∷ []))).1
enter-Entered_example = enter-Entered lock (disk_with (goes ∷ goes ∷ goes ∷ goes ∷ busy ∷ []))
