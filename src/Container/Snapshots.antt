-- ===== src/Container/Snapshots.antt =====
-- container.go: snapshots.
use go_lxc.Base.{
  ℕ, ℤ, pos, negsuc, Option, none, some, List, [], ◌++◌, map, take, Text, codes, ltb, if◌then◌else◌,
  bit_or,
}
use go_lxc.Base.Strings.{c_string, go_string}
use go_lxc.Base.Decimal.{format}
use go_lxc.Errors.{
  sentinel, err_create_snapshot_failed, err_restore_snapshot_failed, err_destroy_snapshot_failed,
  err_destroy_all_snapshots_failed, err_no_snapshot,
}
use go_lxc.Exec.{pure, fail, panic, null_dereference, index_out_of_range, ◌>>=◌, ◌>>◌}
use go_lxc.Liblxc.{Liblxc, CSnapshot}
use go_lxc.Binding.{go_lxc_snapshot_destroy_all}
use go_lxc.Container.{
  Action, Method, is_defined, is_not_running, is_at_least_lxc11, handle_or, sure, call, must,
  make_sure,
}

pub record Snapshot : Type 0 where
  pub name : Text
  pub comment_path : Text
  pub timestamp : Text
  pub path : Text

-- One round of the loop of `Snapshots`.
unfoldable pub snapshot_of : CSnapshot → Snapshot
snapshot_of c = record {
  name = go_string c.name;
  comment_path = go_string c.comment_pathname;
  timestamp = go_string c.timestamp;
  path = go_string c.lxcpath;
}

module _ (L : Liblxc) where
  open L use {snaps}

  -- What `CreateSnapshot` returns for the number that the library gives.
  unfoldable pub made : ℤ → Method L (Option Snapshot) (Option Snapshot)
  unfolding format
  made (pos n) = pure (
      some
        (record { name = codes "snap" ++ format n; comment_path = []; timestamp = []; path = [] }))
  made (negsuc n) = fail none (sentinel err_create_snapshot_failed)

  -- `CreateSnapshot`
  unfoldable pub create_snapshot : Method L (Option Snapshot) (Option Snapshot)
  unfolding make_sure made
  create_snapshot = do
    p ← handle_or none
    sure none (bit_or is_defined is_not_running)
    ret ← call (snaps.snapshot p)
    made ret

  -- `RestoreSnapshot`
  unfoldable pub restore_snapshot : Snapshot → Text → Action L
  unfolding make_sure
  restore_snapshot snapshot name = do
    p ← handle_or tt
    sure tt is_defined
    must tt err_restore_snapshot_failed
        (snaps.snapshot_restore p (c_string snapshot.name) (c_string name))

  -- `DestroySnapshot`
  unfoldable pub destroy_snapshot : Snapshot → Action L
  unfolding make_sure
  destroy_snapshot snapshot = do
    p ← handle_or tt
    sure tt is_defined
    must tt err_destroy_snapshot_failed (snaps.snapshot_destroy p (c_string snapshot.name))

  -- `DestroyAllSnapshots`
  unfoldable pub destroy_all_snapshots : Action L
  unfolding make_sure go_lxc_snapshot_destroy_all
  destroy_all_snapshots = do
    p ← handle_or tt
    sure tt (bit_or is_defined is_at_least_lxc11)
    must tt err_destroy_all_snapshots_failed (go_lxc_snapshot_destroy_all L p)

  -- The length of the array type that `Snapshots` takes a slice of; a longer slice is a panic.
  abbrev pub most_snapshots : ℕ
  most_snapshots = 0x3ff_ffff

  -- What `Snapshots` returns for the number and the array that the library gives.
  unfoldable pub listed : ℤ → List CSnapshot → Method L (List Snapshot) (List Snapshot)
  unfolding snapshot_of
  listed (pos n) found =
      if ltb n 1
      then fail [] (sentinel err_no_snapshot)
      else if ltb most_snapshots n
      then panic index_out_of_range
      else pure (map snapshot_of (take n found))
  listed (negsuc n) found = panic null_dereference

  -- `Snapshots`. Of the array as many entries are read as the library says. The array is freed on
  -- return; a negative number is then a huge one, and the loop follows the null pointer that an
  -- error leaves.
  unfoldable pub snapshots : Method L (List Snapshot) (List Snapshot)
  unfolding make_sure listed
  snapshots = do
    p ← handle_or []
    sure [] is_defined
    found ← call (snaps.snapshot_list p)
    listed found.0 found.1
