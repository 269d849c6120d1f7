-- ===== src/Examples/Adb.antt =====
-- A frame at concrete inputs (`internal/adb/wire.go`).
use wanctl.Prelude.Results.{ok}
use wanctl.Prelude.{◌≡◌, ◌++◌, arith, true}
use wanctl.Bytes.{codes}
use wanctl.Adb.Wire.{Message, write, read_message}
use wanctl.Adb.Wire.RoundTrip.{read_message-write}

abbrev opening : Message
opening = record { command = 0x4E45504F; arg0 = 1; arg1 = 0; payload = codes "shell:id" }

read_message-write_example :
    read_message (write opening ++ codes "next") 1048576 true ≡ ok (opening, codes "next")
read_message-write_example =
    read_message-write opening (codes "next") 1048576 true
      (record { command = omega arith; arg0 = omega arith; arg1 = omega arith }) (omega arith)
      (omega arith)
