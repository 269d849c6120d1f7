-- ===== src/Agent/Jobs.antt =====
-- internal/agent/jobs.go: commands that run on after the controller has gone.
pub mod Retained
use wanctl.Prelude.{
  ℕ, ◌+◌, ◌-◌, ◌*◌, Bool, true, false, ◌&&◌, ◌||◌, not, Option, none, some, List, [], ◌∷◌, ◌++◌,
  ltb, leb, min, take, drop, map, filter, any, length, if◌then◌else◌, ℤ, pos, negsuc,
}
use wanctl.Prelude.Results.{Fallible, ok, err}
use wanctl.Prelude.Sort.{sort_by, weigh}
use wanctl.Bytes.{Text, codes, text_eq}

abbrev pub max_job_output_bytes : ℕ
max_job_output_bytes = 8388608

-- "\n[wanctl: job output truncated]\n"
unfoldable pub job_output_truncated : Text
job_output_truncated = 10 ∷ (codes "[wanctl: job output truncated]" ++ 10 ∷ [])

pub record JobLimits : Type 0 where
  pub max_concurrent : ℕ
  pub run_timeout : ℕ
  pub max_output : ℤ
  pub max_retained : ℕ
  pub max_bytes : ℕ
  pub retain : ℕ

-- In nanoseconds.
unfoldable pub default_job_limits : JobLimits
default_job_limits = record {
  max_concurrent = 4;
  run_timeout = 1800000000000;
  max_output = pos max_job_output_bytes;
  max_retained = 64;
  max_bytes = 67108864;
  retain = 3600000000000;
}

pub record Job : Type 0 where
  pub id : Text
  pub cmd : Text
  pub started : ℕ
  pub owner : Text
  pub out : Text
  pub done : Bool
  pub code : ℤ
  pub finished : ℕ
  pub max_output : ℤ

-- The limit of a job's output; one that is not positive stands for the default.
unfoldable pub output_limit : ℤ → ℕ
output_limit (pos n) = if ltb 0 n then n else max_job_output_bytes
output_limit (negsuc n) = max_job_output_bytes

-- `copy(out[limit-len(mark):], mark)`, what lies past the limit left as it is.
unfoldable pub mark_end : ℕ → Text → Text
unfolding job_output_truncated
mark_end limit out =
    if leb (length job_output_truncated) limit
    then take (limit - length job_output_truncated) out ++ (job_output_truncated ++ drop limit out)
    else out

unfoldable pub write_output : ℕ → Text → Text → Text
write_output limit p out =
    let room = limit - length out in
    if ltb room (length p) then mark_end limit (out ++ take room p) else out ++ p

-- `jobWriter.Write`
unfoldable pub write_job : Text → Job → Job
write_job p j = record j { out = write_output (output_limit j.max_output) p j.out }

-- An offset, brought into range.
unfoldable pub clamp : ℤ → ℕ → ℕ
clamp (pos n) total = min n total
clamp (negsuc n) total = 0

-- `snapshot`: what is new, the total, and the status.
unfoldable pub snapshot : ℤ → Job → Text × ℕ × Bool × ℤ
snapshot offset j = (drop (clamp offset (length j.out)) j.out, length j.out, j.done, j.code)

-- The map of jobs, as a list; `running` counts the goroutines that have not ended.
pub record JobStore : Type 0 where
  pub jobs : List Job
  pub running : ℕ
  pub limits : JobLimits

unfoldable pub new_job_store : JobLimits → JobStore
new_job_store l = record { jobs = []; running = 0; limits = l }

unfoldable pub expired : ℕ → ℕ → Job → Bool
expired now retain j = j.done && ltb (j.finished + retain) now

-- The loop that evicts the oldest jobs: their names.
unfoldable pub evict : ℕ → ℕ → List Job → ℕ → List Text
evict max_retained max_bytes [] bytes = []
evict max_retained max_bytes (j ∷ js) bytes =
    let rest = evict max_retained max_bytes js (bytes - length j.out) in
    if ltb max_retained (length (j ∷ js)) || ltb max_bytes bytes then j.id ∷ rest else []

unfoldable pub named : Text → List Text → Bool
named id ids = any (text_eq id) ids

-- The finished jobs that are not expired, the oldest first.
unfoldable pub retained : List Job → List Job
retained live = sort_by (λ j. j.finished) (filter (λ j. j.done) live)

unfoldable pub evicted : JobLimits → List Job → List Text
evicted l live =
    evict l.max_retained l.max_bytes (retained live) (weigh (λ j. length j.out) (retained live))

unfoldable pub collect : JobLimits → ℕ → List Job → List Job
collect l now js =
    let live = filter (λ j. not (expired now l.retain j)) js in
    filter (λ j. not (named j.id (evicted l live))) live

-- `gcLocked`
unfoldable pub gc : ℕ → JobStore → JobStore
gc now s = record s { jobs = collect s.limits now s.jobs }

unfoldable pub find_job : Text → List Job → Option Job
find_job id [] = none
find_job id (j ∷ js) = let rest = find_job id js in if text_eq j.id id then some j else rest

-- `get` and `getFor`, with the store that the collection leaves.
unfoldable pub get : Text → ℕ → JobStore → Option Job × JobStore
get id now s = (find_job id (gc now s).jobs, gc now s)

unfoldable pub owned : Text → Option Job → Option Job
owned owner none = none
owned owner (some j) = if text_eq j.owner owner then some j else none

unfoldable pub get_for : Text → Text → ℕ → JobStore → Option Job × JobStore
get_for id owner now s = let (found, s') = get id now s in (owned owner found, s')

pub data JobError : Type 0 where
  no_random too_many_jobs : JobError

unfoldable pub admit_job : Job → JobStore → Fallible JobError Text × JobStore
admit_job j s =
    if leb s.limits.max_concurrent s.running
    then (err too_many_jobs, s)
    else (ok j.id, record s { jobs = j ∷ s.jobs; running = s.running + 1 })

-- `start`, up to the goroutine; `drawn` is the random name in hex.
unfoldable pub start : Option Text → Text → Text → ℕ → JobStore → Fallible JobError Text × JobStore
start none owner command now s = (err no_random, s)
start (some drawn) owner command now s =
    admit_job
      (record {
        id = drawn;
        cmd = command;
        started = now;
        owner = owner;
        out = [];
        done = false;
        code = pos 0;
        finished = 0;
        max_output = s.limits.max_output;
      })
      (gc now s)

-- What the goroutine writes of an error, and the status that it leaves.
unfoldable pub report_error : Option Text → Text
report_error none = []
report_error (some problem) =
    10 ∷ (codes "[wanctl: job error: " ++ (problem ++ (codes "]" ++ 10 ∷ [])))

unfoldable pub end_job : Option Text → ℤ → ℕ → Job → Job
end_job none code now j = record j { done = true; code = code; finished = now }
end_job (some problem) code now j = record (write_job (report_error (some problem)) j) {
  done = true;
  code = negsuc 0;
  finished = now;
}

unfoldable pub update_job : Text → (Job → Job) → List Job → List Job
update_job id f js = map (λ j. if text_eq j.id id then f j else j) js

-- The command's goroutine: its writes, the end of the command, and its place given back.
unfoldable pub write_to : Text → Text → JobStore → JobStore
write_to id p s = record s { jobs = update_job id (write_job p) s.jobs }

unfoldable pub finish : Text → Option Text → ℤ → ℕ → JobStore → JobStore
finish id problem code now s = record s { jobs = update_job id (end_job problem code now) s.jobs }

unfoldable pub release : ℕ → JobStore → JobStore
release now s = gc now (record s { running = s.running - 1 })
