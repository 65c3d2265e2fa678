-- ===== src/System/Tests.antt =====
-- A run of backend and worker.
use phyai_saas_train_vla.Prelude.{◌≤◌, refl, [], ◌∷◌, count_if, pos}
use phyai_saas_train_vla.Dict.{values}
use phyai_saas_train_vla.Common.Models.{act, hf_hub}
use phyai_saas_train_vla.Repository.Database.{Database}
use phyai_saas_train_vla.Repository.Invariant.{is_running, active_of}
use phyai_saas_train_vla.Backend.JobService.{create_job, request_cancel}
use phyai_saas_train_vla.Worker.Main.{worker_tick}
use phyai_saas_train_vla.Samples.{alice, counting, config, monitor}
use phyai_saas_train_vla.System.{
  Steps, at_start, and_then, asks_for_job, asks_to_cancel, works, one_at_a_time,
}

abbrev new : Database
new = record { users = ("alice", alice) ∷ []; jobs = [] }

abbrev asked : Database
asked = (create_job "j" 5 6 "alice" act hf_hub "a/b" (pos 100) new).1

abbrev worked : Database
worked = (worker_tick counting config monitor (record { db = asked; world = 0 })).1.db

abbrev regretted : Database
regretted = (request_cancel 9 "alice" "j" worked).1

a_run : Steps counting config monitor new regretted
a_run =
    and_then
      (and_then (and_then at_start (asks_for_job "j" 5 6 "alice" act hf_hub "a/b" (pos 100) refl))
        (works 0))
      (asks_to_cancel 9 "alice" "j")

one_at_a_time_example :
    (count_if is_running (values regretted.jobs) ≤ 1)
    × (count_if (active_of "alice") (values regretted.jobs) ≤ 1)
one_at_a_time_example = one_at_a_time counting config monitor "alice" refl a_run
