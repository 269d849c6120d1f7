-- ===== src/Agent/Spill.antt =====
-- internal/server/spill.go: the output of a command, kept in a file once it has grown.
pub mod Sweep
pub mod Phases
pub mod Keeps
pub mod Course
pub mod Report
use wanctl.Prelude.{
  ℕ, ◌+◌, ◌-◌, Bool, true, false, ◌||◌, not, Option, none, some, List, [], ◌∷◌, ◌++◌, ltb, take,
  if◌then◌else◌, length, ℤ, pos, negsuc,
}
use wanctl.Bytes.{Text, is_empty}

abbrev pub max_spill_bytes : ℕ
max_spill_bytes = 8388608

-- `content` is what the file at `path` holds; `is_open` says that the writer has a file.
pub record SpillWriter : Type 0 where
  pub threshold : ℤ
  pub total : ℕ
  pub kept : ℕ
  pub held : Text
  pub is_open : Bool
  pub path : Text
  pub content : Text
  pub failed : Bool
  pub full : Bool

-- How a write to the file ends: whole, or in an error after some bytes.
pub data Fate : Type 0 where
  complete : Fate
  breaks : ℕ → Fate

-- One `Write`, with what the operating system does in it: the file that is created, if it can be,
-- and the fates of the writes to it.
pub record Chunk : Type 0 where
  pub bytes : Text
  pub created : Option Text
  pub first : Fate
  pub second : Fate

unfoldable pub new_spill : ℤ → SpillWriter
new_spill threshold = record {
  threshold = threshold;
  total = 0;
  kept = 0;
  held = [];
  is_open = false;
  path = [];
  content = [];
  failed = false;
  full = false;
}

-- The file is closed and removed.
unfoldable pub abandon : SpillWriter → SpillWriter
abandon s = record s {
  failed = true;
  is_open = false;
  path = [];
  content = [];
  held = [];
  kept = 0;
}

-- A write without a file is an error too.
unfoldable pub write_file : Fate → Text → SpillWriter → SpillWriter
unfolding abandon
write_file complete p s =
    if s.is_open then record s { content = s.content ++ p; kept = s.kept + length p } else abandon s
write_file (breaks n) p s = abandon s

unfoldable pub append_cut : Fate → Text → SpillWriter → SpillWriter
append_cut fate p s = if is_empty p then s else write_file fate p s

-- `append`; what is kept never passes the cap, so the room is no negative number.
unfoldable pub append : Fate → Text → SpillWriter → SpillWriter
append fate p s =
    let room = max_spill_bytes - s.kept in
    if ltb room (length p)
    then append_cut fate (take room p) (record s { full = true })
    else append_cut fate p s

unfoldable pub open_file : Option Text → SpillWriter → SpillWriter
open_file none s = record s { failed = true }
open_file (some path) s = record s { is_open = true; path = path }

-- What was held and the new chunk go to the file, if there is one.
unfoldable pub fill : Chunk → SpillWriter → SpillWriter
fill c s = if s.is_open then append c.second c.bytes (append c.first s.held s) else s

-- The branch of `Write` in which the threshold is passed.
unfoldable pub spill : Chunk → SpillWriter → SpillWriter
spill c s = record (fill c (open_file c.created s)) { held = [] }

unfoldable pub exceeds : ℕ → ℤ → Bool
exceeds n (pos t) = ltb t n
exceeds n (negsuc t) = true

unfoldable pub enabled : ℤ → Bool
enabled (pos t) = ltb 0 t
enabled (negsuc t) = false

-- A write that is counted.
unfoldable pub write_counted : Chunk → SpillWriter → SpillWriter
write_counted c s =
    if s.failed || s.full
    then s
    else if s.is_open
    then append c.first c.bytes s
    else if exceeds s.total s.threshold
    then spill c s
    else record s { held = s.held ++ c.bytes }

-- `Write`, as far as it concerns the file: what the underlying writer returns goes to the caller.
unfoldable pub write : Chunk → SpillWriter → SpillWriter
write c s =
    if enabled s.threshold
    then write_counted c (record s { total = s.total + length c.bytes })
    else s

-- `Close`: the path, how many bytes passed, and how many of them the file holds.
unfoldable pub close : SpillWriter → Text × ℕ × ℕ
close s = if s.failed then ([], s.total, 0) else (s.path, s.total, s.kept)
