-- ===== src/Examples/Requests.antt =====
-- Examples for requests that follow one another.
use high_scale_job_scheduler.Prelude.{pos, some, ◌≡◌, refl, ◌⊎◌}
use high_scale_job_scheduler.Models.{Job}
use high_scale_job_scheduler.Effects.World.{run, stored}
use high_scale_job_scheduler.Effects.Memory.{answer, floor_ms, max_id, key_used}
use high_scale_job_scheduler.Effects.Memory.Lawful.{memory, codec}
use high_scale_job_scheduler.Store.{create, new_job}
use high_scale_job_scheduler.Api.{create_job, create_scheduled, get_job, write_json, job_body}
use high_scale_job_scheduler.Api.Fetching
use high_scale_job_scheduler.Api.Fetching.{Fetches}
use high_scale_job_scheduler.Examples.Data.{backlog, backlog-UniqueIds, request, memory_of}

get_job-Fetches_example :
    let (resp, s') = run memory (get_job (codec.hex_of 2)) (memory_of backlog) in
    let id = Fetching.parsed memory (memory_of backlog) (codec.hex_of 2) in
    (memory.view s' ≡ memory.view (memory_of backlog))
    × Fetches id (Fetching.read_after memory (memory_of backlog) (codec.hex_of 2) id) backlog resp
get_job-Fetches_example =
    Fetching.get_job-Fetches memory (memory_of backlog) (codec.hex_of 2) backlog-UniqueIds

abbrev new_one : Job
new_one = record (new_job request (pos 10000000000)) { id = 4 }

creates_new_one :
    (run memory (create_job (some request)) (memory_of backlog)).0
    ≡ write_json 201 (job_body new_one)
unfolding run create_job create_scheduled create answer floor_ms max_id key_used new_job
creates_new_one = refl

created_then_fetched_example :
    let resp =
      (run memory
        (get_job (codec.hex_of new_one.id))
        (run memory (create_job (some request)) (memory_of backlog)).1).0 in
    (resp ≡ write_json 200 (job_body (stored codec new_one))) ⊎ (resp.status ≡ 500)
created_then_fetched_example =
    Fetching.created_then_fetched memory (memory_of backlog) (some request) new_one
      backlog-UniqueIds creates_new_one
