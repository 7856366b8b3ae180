-- ===== src/Tests/Renamed.antt =====
-- cpm/cpm_bdos.go at a concrete state: files are deleted and renamed.
use cpmulator.Base.{◌≡◌, none, some, List}
use cpmulator.Fcb
use cpmulator.Fcb.{FcbFind}
use cpmulator.Host
use cpmulator.Cpm.{done, set_a, drive_path}
use cpmulator.Bdos.Block.{block_letter}
use cpmulator.Bdos.Directory.{delete_block}
use cpmulator.Bdos.Directory.Delete.{Deletes, delete_block-Deletes}
use cpmulator.Tests.Disk.{s}
use cpmulator.Tests.Blocks.{any_block}

delete_block-Deletes_example :
    let path = drive_path s (block_letter any_block s) in
    (Fcb.get_matches any_block path (Host.list_dir path s.host) ≡ none
      → delete_block any_block s ≡ done (set_a 0xff s))
    × ((res : List FcbFind)
        → Fcb.get_matches any_block path (Host.list_dir path s.host) ≡ some res
        → Deletes res s (delete_block any_block s))
delete_block-Deletes_example = delete_block-Deletes any_block s
