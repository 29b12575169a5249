-- ===== src/TestManager/Startup/Baseline.antt =====
-- The baseline snapshot that `NewTestManager` of test-manager.go takes.
use osha.Base.{text_eq, insert}
use osha.Beacon.Config.{Config}
use osha.Beacon.Heap.{Heap}
use osha.Filesystem
use osha.Filesystem.{Disk, FilesystemManager, dir, end, private_mode}
use osha.TestManager.{TestManager}

abbrev pub made_folders : FilesystemManager → Disk → Disk
made_folders files disk =
    insert files.snapshot_dir (dir private_mode end)
      (insert files.test_dir (dir private_mode end) disk)
