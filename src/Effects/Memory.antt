-- ===== src/Effects/Memory.antt =====
-- A world in memory that never fails by itself: the documents are a list, the clock moves by a second
-- at each reading, and cron expressions fire every minute, but for "bad", which is refused, and the 30th
-- of February, which never comes.
pub mod Search
pub mod Listing
pub mod Lawful
use Prim.Native.String.{String}
use mathlib.Core.List.{Memᴰ}
use high_scale_job_scheduler.Prelude.{
  map, ℕ, zero, suc, ℤ, pos, negsuc, ◌+◌, ◌-◌, ◌*◌, ◌/◌, ◌≡◌, Bool, true, false, ◌&&◌, ◌||◌, not,
  List, [], ◌∷◌, Option, none, some, ◌==◌, if◌then◌else◌, str_eq, leb, ◌+ℤ◌, take, drop, filter_if,
  count_if,
}
use high_scale_job_scheduler.Errors.{Error, Result, ok, err, no_documents, duplicate_key, foreign}
use high_scale_job_scheduler.Models.{zero_time, Job, ObjectId, Time}
use high_scale_job_scheduler.Topics.{DispatchMessage}
use high_scale_job_scheduler.Effects.{
  rand_intn, mongo_connect, mongo_ping, kafka_client, etcd_client, new_session, campaign, resign,
  close_session, close_etcd, close_kafka, time_sleep, mongo_disconnect, ticker_wait, http_post,
  http_get, Cmd, Reply, Fetches, create_indexes, insert_one, find_one, find, find_one_and_update,
  update_one, update_many, produce, poll_fetches, commit_offsets, time_now, context_done, next_tick,
  sleep, rand_float64, cron_next, hex, from_hex, go_dispatch, count,
}
use high_scale_job_scheduler.Effects.Docs.{change_all}
use high_scale_job_scheduler.Effects.World.{View, Codec, declares_key}

-- Whole milliseconds, downwards.
unfoldable pub floor_ms : Time → Time
floor_ms (pos n) = pos (n / 1000000 * 1000000)
floor_ms (negsuc n) = negsuc ((n / 1000000 + 1) * 1000000 - 1)

-- As many digits as the number says.
unfoldable pub unary : ObjectId → String
unary zero = String.[]
unary (suc n) = String.◌∷◌ "f" (unary n)

unfoldable pub from_unary : String → ObjectId
from_unary String.[] = 0
from_unary (String.◌∷◌ c s) = suc (from_unary s)

-- What can be seen, the clock, and the ticks left before the context ends.
pub record Memory : Type 0 where
  pub view : View
  pub clock : Time
  pub ticks : ℕ

unfoldable pub max_id : List Job → ℕ
max_id [] = 0
max_id (j ∷ js) = if leb (max_id js) j.id then j.id else max_id js

unfoldable pub key_used : String → List Job → Bool
key_used k [] = false
key_used k (j ∷ js) = str_eq j.idempotency_key k || key_used k js

unfoldable pub keys_unique : List Job → Bool
keys_unique [] = true
keys_unique (j ∷ js) = not (key_used j.idempotency_key js) && keys_unique js

unfoldable pub first_of_docs : (Job → Bool) → List Job → Option Job
first_of_docs p [] = none
first_of_docs p (j ∷ js) = if p j then some j else first_of_docs p js

-- No document that passes precedes `j`.
unfoldable pub is_first : (Job → Bool) → (Job → Job → Bool) → Job → List Job → Bool
is_first p before j [] = true
is_first p before j (k ∷ ks) = (not (p k) || not (before k j)) && is_first p before j ks

-- The list with the first document that passes changed, if there is one, and that document.
unfoldable pub change_first : (Job → Bool) → (Job → Job) → List Job → Option (Job × List Job)
change_first p g [] = none
change_first p g (j ∷ js) =
    let rest = change_first p g js in
    if p j then some (j, g j ∷ js) else elim rest [ none ↦ none | some (k, ks) ↦ some (k, j ∷ ks) ]

-- A page of a list and what is left of it.
unfoldable pub cut : ℤ → List Job → List Job × List Job
cut (pos zero) js = (js, [])
cut (pos (suc n)) js = (take (suc n) js, drop (suc n) js)
cut (negsuc n) js = (js, [])

unfoldable pub insert_by : (Job → Job → Bool) → Job → List Job → List Job
insert_by before k [] = k ∷ []
insert_by before k (j ∷ js) =
    let rest = insert_by before k js in if before j k then j ∷ rest else k ∷ j ∷ js

unfoldable pub sort_by : (Job → Job → Bool) → List Job → List Job
sort_by before [] = []
sort_by before (j ∷ js) = insert_by before j (sort_by before js)

-- The job precedes none of the list; no job precedes one before it; none of the second list precedes
-- one of the first.
unfoldable pub precedes_none : (Job → Job → Bool) → Job → List Job → Bool
precedes_none before k [] = true
precedes_none before k (j ∷ js) = not (before k j) && precedes_none before k js

unfoldable pub none_precedes : (Job → Job → Bool) → List Job → Job → Bool
none_precedes before [] j = true
none_precedes before (k ∷ ks) j = not (before k j) && none_precedes before ks j

unfoldable pub in_order : (Job → Job → Bool) → List Job → Bool
in_order before [] = true
in_order before (j ∷ js) = none_precedes before js j && in_order before js

unfoldable pub all_after : (Job → Job → Bool) → List Job → List Job → Bool
all_after before js [] = true
all_after before js (k ∷ ks) = precedes_none before k js && all_after before js ks

unfoldable pub every_minute : String → Time → Result Time
every_minute expr after =
    if str_eq expr "bad"
    then err (foreign 1)
    else if str_eq expr "0 0 30 2 *"
    then ok zero_time
    else ok (after +ℤ pos 60000000000)

abbrev pub with_view : Memory → View → Memory
with_view m v = record m { view = v }

-- The codec, with its laws, is in the module below; here its time is `floor_ms`.
unfoldable pub answer : ((Job → Job)) → (c : Cmd) → Memory → Reply c × Memory
answer st (create_indexes ixs) m =
    if declares_key ixs && not (keys_unique m.view.docs)
    then (err duplicate_key, m)
    else (ok tt, with_view m (record (m.view) { key_index = declares_key ixs || m.view.key_index }))
answer st (insert_one j) m =
    let i = suc (max_id m.view.docs) in
    if m.view.key_index && key_used j.idempotency_key m.view.docs
    then (err duplicate_key, m)
    else (ok i, with_view m (record (m.view) { docs = st (record j { id = i }) ∷ m.view.docs }))
answer st (find_one p) m = elim (first_of_docs p m.view.docs) [
  | none ↦ (err no_documents, m)
  | some j ↦ (ok j, m)
]
answer st (find p limit before) m =
    let (page, left) = cut limit (sort_by before (filter_if p m.view.docs)) in
    if in_order before page && all_after before page left
    then (ok page, m)
    else (err (foreign 0), m)
answer st (find_one_and_update p f before) m =
    elim (change_first (λ j. p j && is_first p before j m.view.docs) (λ j. st (f j)) m.view.docs) [
      | some (j, js) ↦ (ok (st (f j)), with_view m (record (m.view) { docs = js }))
      | none ↦ elim (first_of_docs p m.view.docs) [
        | none ↦ (err no_documents, m)
        | some j ↦ (err (foreign 0), m)
      ]
    ]
answer st (update_one p f) m = elim (change_first p (λ j. st (f j)) m.view.docs) [
  | none ↦ (ok 0, m)
  | some (j, js) ↦ (ok 1, with_view m (record (m.view) { docs = js }))
]
answer st (update_many p f) m = (
  ok (count_if p m.view.docs),
  with_view m (record (m.view) { docs = change_all p (λ j. st (f j)) m.view.docs }),
)
answer st (produce msg) m =
    (ok tt, with_view m (record (m.view) { produced = msg ∷ m.view.produced }))
answer st poll_fetches m =
    (record { client_closed = false; records = map (λ msg. msg.value) m.view.produced }, m)
answer st commit_offsets m = (ok tt, m)
answer st time_now m = (m.clock, record m { clock = m.clock +ℤ pos 1000000000 })
answer st context_done m = (m.ticks == 0, record m { ticks = m.ticks - 1 })
answer st next_tick m = (m.ticks == 0, record m { ticks = m.ticks - 1 })
answer st (sleep d) m = (none, record m { clock = m.clock +ℤ d })
answer st rand_float64 m = (0x3fd0000000000000, m)
answer st (cron_next expr after) m = (every_minute expr after, m)
answer st (hex i) m = (unary i, m)
answer st (from_hex t) m = (ok (from_unary t), m)
answer st (go_dispatch j) m =
    (tt, with_view m (record (m.view) { dispatched = j ∷ m.view.dispatched }))
answer st (count c) m = (tt, with_view m (record (m.view) { counted = c ∷ m.view.counted }))
answer st (rand_intn n) m = (n / 2, m)
answer st (mongo_connect uri) m = (ok tt, m)
answer st mongo_ping m = (ok tt, m)
answer st (kafka_client brokers group) m = (ok tt, m)
answer st (etcd_client endpoints) m = (ok tt, m)
answer st (new_session ttl) m = (ok tt, m)
answer st (campaign node_id) m = (ok tt, m)
answer st resign m = (ok tt, m)
answer st close_session m = (ok tt, m)
answer st close_etcd m = (ok tt, m)
answer st close_kafka m = (tt, m)
answer st (time_sleep d) m = (tt, record m { clock = m.clock +ℤ d })
answer st mongo_disconnect m = (ok tt, m)
answer st ticker_wait m = (tt, m)
answer st (http_post url body) m =
    (ok (record { status_code = 201; body = ok (record { id = url; status = "pending" }) }), m)
answer st (http_get url) m =
    (ok (record { status_code = 200; body = ok (record { id = url; status = "completed" }) }), m)
