-- ===== src/Netem/RoundTrips.antt =====
-- `parseWrapperState` of server/src/simulator/netemLease.ts and `parseWrapperCommand` of
-- server/src/simulator/netemRunner.ts on what was stored and what was sent.
use devnet_deftrack.Common.{◌≡◌, refl, String, Option, none, some, List, [], ◌∷◌, map, ok, ap}
use devnet_deftrack.Netem.{FaultClass, FaultJob, fault_class_of}
use devnet_deftrack.Netem.Json.{natural, text, texts_of, text_items}
use devnet_deftrack.Netem.State.{
  StoredJob, job_kind_name, print_job, print_jobs, print_state, read_job, read_jobs,
  parse_wrapper_state,
}

pub texts_of-text_items : (strings : List String) → texts_of (text_items strings) ≡ strings
texts_of-text_items [] = refl
texts_of-text_items (s ∷ strings) = ap (λ rest. s ∷ rest) (texts_of-text_items strings)

-- A job as it is read back.
abbrev pub stored : FaultJob → StoredJob
stored job = record {
  job_id = job.job_id;
  run_tag = job.run_tag;
  container = job.container;
  fault_class = fault_class_of job;
  kind = text (job_kind_name job.kind);
  args = job.args;
  applied_at_ms = natural job.applied_at_ms;
  expires_at_ms = natural job.expires_at_ms;
}

read_job-print_job : (job : FaultJob) → read_job (print_job job) ≡ some (stored job)
unfolding read_job
read_job-print_job job = go job.fault_class
  where
    go :
        (c : Option FaultClass)
        → read_job (print_job (record job { fault_class = c }))
          ≡ some (stored (record job { fault_class = c }))
    go none = rw (texts_of-text_items job.args) refl
    go (some FaultClass.netem) = rw (texts_of-text_items job.args) refl
    go (some FaultClass.service) = rw (texts_of-text_items job.args) refl
    go (some FaultClass.dsl) = rw (texts_of-text_items job.args) refl

read_jobs-print_jobs : (jobs : List FaultJob) → read_jobs (print_jobs jobs) ≡ map stored jobs
unfolding read_jobs
read_jobs-print_jobs [] = refl
read_jobs-print_jobs (job ∷ jobs) =
    rw (read_jobs, read_job-print_job job, read_jobs-print_jobs jobs) refl

-- A record that the wrapper has stored is read back whole: every job in its order, with its id, run, container,
-- kind, arguments, times, and with the class that it counts as.
pub parse_wrapper_state-print_state :
    (jobs : List FaultJob) → parse_wrapper_state (print_state jobs) ≡ ok (map stored jobs)
unfolding parse_wrapper_state
parse_wrapper_state-print_state jobs = ap ok (read_jobs-print_jobs jobs)
