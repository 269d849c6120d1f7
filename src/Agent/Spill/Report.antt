-- ===== src/Agent/Spill/Report.antt =====
-- What `Close` reports of a run: nothing, or a file that holds the output's beginning.
use wanctl.Prelude.{ℕ, ◌≤◌, ◌<◌, ◌≡◌, ◌⊎◌, min, List, [], take, length, pos}
use wanctl.Bytes.{Text}
use wanctl.Agent.Spill.{SpillWriter, Chunk, max_spill_bytes}
use wanctl.Agent.Spill.Course.{output, AnyTrouble, Phase}

-- A run at any moment.
record Course (t : ℕ) (cs : List Chunk) (s : SpillWriter) : Type 0 where
  total : s.total ≡ length (output cs)
  threshold : s.threshold ≡ pos t
  phase : Phase t cs s

-- What is reported: nothing kept, where the threshold was not passed or something went wrong, or a
-- file with the beginning of the output, up to the cap, and how long that is.
abbrev pub Report : ℕ → List Chunk → SpillWriter → Text × ℕ × ℕ → Type 0
Report t cs s r =
    (((length (output cs) ≤ t) ⊎ AnyTrouble cs) × (r.0 ≡ []) × (r.2 ≡ 0))
    ⊎ ((t < length (output cs))
        × (r.0 ≡ s.path)
        × (s.content ≡ take max_spill_bytes (output cs))
        × (r.2 ≡ min max_spill_bytes (length (output cs))))
