-- ===== src/Examples/Agent.antt =====
-- The output of a command and its jobs at concrete inputs (`internal/server/spill.go`,
-- `internal/agent/jobs.go`).
use wanctl.Prelude.{
  false, ◌+◌, zero, suc, All, filter, any, refl, ◌<◌, ◌⊎◌, pos, true, ◌≤◌, ℕ, map, ◌≡◌, some, List,
  [], ◌∷◌, length,
}
use wanctl.Prelude.Sort.{sort_by, weigh}
use wanctl.Agent.Spill.Sweep.{
  SpillFile, Obeys, max_spill_files, retired, oldest_spills, sweep_spills, sweep_spills-newest,
}
use wanctl.Bytes.{text_eq, Text, codes}
use wanctl.Agent.Jobs.{collect, expired, named, evicted, evict, retained, Job, JobStore, gc}
use wanctl.Agent.Jobs.Retained.{ended, ended_bytes, live_jobs, gc-bounded}
use wanctl.Agent.Spill.{Chunk, complete}
use wanctl.Agent.Spill.Report.{Report}

abbrev said : List Chunk
said =
    record {
      bytes = codes "cde";
      created = some (codes "wanctl-exec-1.log");
      first = complete;
      second = complete;
    }
    ∷ record {
      bytes = codes "ab";
      created = some (codes "wanctl-exec-0.log");
      first = complete;
      second = complete;
    }
    ∷ []

abbrev ended_job : Text → ℕ → Text → Job
ended_job name at out = record {
  id = name;
  cmd = codes "make";
  started = 0;
  owner = codes "ab";
  out = out;
  done = true;
  code = pos 0;
  finished = at;
  max_output = pos 64;
}

-- One job too many, and one that is expired.
abbrev store : JobStore
store = record {
  jobs =
      ended_job (codes "1") 30 (codes "abc")
      ∷ ended_job (codes "2") 20 (codes "de")
      ∷ ended_job (codes "3") 1 (codes "f")
      ∷ [];
  running = 0;
  limits = record {
    max_concurrent = 4;
    run_timeout = 1800;
    max_output = pos 64;
    max_retained = 1;
    max_bytes = 100;
    retain = 60;
  };
}

older_leaves : map (λ j. j.id) (gc 70 store).jobs ≡ codes "1" ∷ []
unfolding gc collect filter expired named any evicted evict retained sort_by text_eq weigh
older_leaves = refl

gc-bounded_example :
    (ended (gc 70 store).jobs ≤ 1)
    × (ended_bytes (gc 70 store).jobs ≤ 100)
    × (((gc 70 store).jobs ≡ live_jobs 70 store)
        ⊎ ((1 < ended (live_jobs 70 store)) ⊎ (100 < ended_bytes (live_jobs 70 store))))
gc-bounded_example = gc-bounded 70 store

-- So many files, of one second after the other.
abbrev piled : ℕ → List SpillFile
piled zero = []
piled (suc n) =
    record { path = 97 ∷ n ∷ []; mod_time = n; readable = true; removable = true } ∷ piled n

piled-Obeys : (n : ℕ) → All Obeys (piled n)
piled-Obeys zero = tt
piled-Obeys (suc n) = ((refl, refl), piled-Obeys n)

two_oldest_leave : map (λ f. f.mod_time) (oldest_spills 50 (piled 33)) ≡ 0 ∷ 1 ∷ []
unfolding oldest_spills sort_by filter
two_oldest_leave = refl

sweep_spills-newest_example :
    (length (sweep_spills 50 (piled 33)) + 1 ≤ max_spill_files)
    × All (λ f. retired 50 f ≡ false) (sweep_spills 50 (piled 33))
    × All
        (λ f. All (λ g. f.mod_time ≤ g.mod_time) (sweep_spills 50 (piled 33)))
        (oldest_spills 50 (piled 33))
sweep_spills-newest_example = sweep_spills-newest 50 (piled 33) (piled-Obeys 33)
