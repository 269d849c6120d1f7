-- ===== src/Examples/Held.antt =====
-- A direction that is attached, written to, read and closed (`internal/relay/http.go`,
-- `internal/relay/bridge.go`).
use wanctl.Relay.SideQueue.{admit_seq, attach, SideQueue, new_side_queue, commit_seq}
use wanctl.Prelude.{false}
use wanctl.Relay.Residency.{new_residency}
use wanctl.Bytes.{codes}

abbrev attached_queue : SideQueue
attached_queue = attach (new_residency 0) (codes "ns") new_side_queue

abbrev written_queue : SideQueue
written_queue = (commit_seq 1 (codes "one") 3 (admit_seq 1 3 false attached_queue).2).1
