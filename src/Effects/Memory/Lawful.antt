-- ===== src/Effects/Memory/Lawful.antt =====
-- The world in memory keeps to what the services promise.
use mathlib.Core.List.{Memᴰ}
use high_scale_job_scheduler.Prelude.{
  [], ◌∷◌, All, map, and_left, and_right, ◌/◌, ◌⊎◌, ℕ, zero, suc, ℤ, pos, negsuc, ◌<◌, ◌≡◌, refl,
  Bool, ◌&&◌, not, List, ◌+ℤ◌, ◌≤ℤ◌, ◌<ℤ◌, filter_if, arith, Bool-cases, Option-cases, inl, inr,
  int_laws,
}
use high_scale_job_scheduler.Errors.{is_duplicate_idempotency_key, is_not_found}
use high_scale_job_scheduler.Models.{Job, Time}
use high_scale_job_scheduler.Effects.{
  Message, poll_fetches, rand_intn, cron_next, IndexModel, Cmd, Reply, create_indexes, insert_one,
  find_one, find, find_one_and_update, update_one, update_many, from_hex, hex,
}
use high_scale_job_scheduler.Effects.Docs.{Touched, Touched-passes}
use high_scale_job_scheduler.Effects.World.{Codec, World, Effect, stored, declares_key}
use high_scale_job_scheduler.Effects.Memory.{
  cut, sort_by, in_order, all_after, every_minute, Memory, floor_ms, unary, max_id, key_used,
  keys_unique, first_of_docs, is_first, change_first, answer,
}
use high_scale_job_scheduler.Effects.Memory.Listing.{
  All-cut, All-sort_by, length-cut, SortedBy-of, Memᴰ-cut, Memᴰ-sort_by, Memᴰ-filter_if, left_after,
}
use high_scale_job_scheduler.Effects.Memory.Search.{
  from_unary-unary, FreshId-max_id, FreshKey-of_unused, used_not_fresh, UniqueKeys-of, NoneOf-first,
  first_passes, IsFirst-of, NoneOf-change, Touched-change, Touched-weaken, filter_if-Listed,
}

pub floor_ms_le : (t : Time) → floor_ms t ≤ℤ t
unfolding floor_ms
floor_ms_le (pos n) = omega arith
floor_ms_le (negsuc n) = omega arith

pub floor_ms_near : (t : Time) → t <ℤ floor_ms t +ℤ pos 1000000
unfolding floor_ms
floor_ms_near (pos n) = omega int_laws
floor_ms_near (negsuc n) = omega int_laws

pub floor_ms_mono : (t u : Time) → t ≤ℤ u → floor_ms t ≤ℤ floor_ms u
unfolding floor_ms
floor_ms_mono (pos n) (pos m) h = omega arith
floor_ms_mono (pos n) (negsuc m) h = omega arith
floor_ms_mono (negsuc n) (pos m) h = omega arith
floor_ms_mono (negsuc n) (negsuc m) h = omega arith

abbrev pub codec : Codec
codec = record {
  datetime = floor_ms;
  datetime_le = floor_ms_le;
  datetime_near = floor_ms_near;
  datetime_mono = floor_ms_mono;
  hex_of = unary;
  next_of = every_minute;
}

abbrev pub reply : (c : Cmd) → Memory → Reply c × Memory
reply = answer (stored codec)

abbrev pub Lawful : Cmd → Type 0
Lawful c = (m : Memory) → Effect codec c (reply c m).0 m.view (reply c m).1.view

create_indexes-Lawful : (ixs : List IndexModel) → Lawful (create_indexes ixs)
unfolding answer
create_indexes-Lawful ixs m =
    elim (Bool-cases (declares_key ixs && not (keys_unique m.view.docs))) [
      | inl e ↦ rw (e, answer) (inl refl)
      | inr e ↦ rw (e, answer) (refl, λ d. UniqueKeys-of m.view.docs (ground arith))
    ]

insert_one-Lawful : (j : Job) → Lawful (insert_one j)
unfolding answer is_duplicate_idempotency_key
insert_one-Lawful j m =
    elim (Bool-cases (m.view.key_index && key_used j.idempotency_key m.view.docs)) [
      | inl e ↦
          rw (e, answer)
            (
              ((λ _. (refl, used_not_fresh j.idempotency_key m.view.docs (ground arith))), refl),
              inl refl,
            )
      | inr e ↦
          rw (e, answer)
            (record {
              fresh_id = FreshId-max_id (suc (max_id m.view.docs)) m.view.docs (omega arith);
              fresh_key = λ on. FreshKey-of_unused j.idempotency_key m.view.docs (ground arith);
              after = refl;
            })
    ]

find_one-Lawful : (p : Job → Bool) → Lawful (find_one p)
unfolding answer is_not_found
find_one-Lawful p m = elim (Option-cases (first_of_docs p m.view.docs)) [
  | inl e ↦ rw (e, answer) (((λ _. NoneOf-first p m.view.docs e), refl), refl)
  | inr (j, e) ↦ let (mem, q) = first_passes p j m.view.docs e in rw (e, answer) (mem, q, refl)
]

update_one-Lawful : (p : Job → Bool) (f : Job → Job) → Lawful (update_one p f)
unfolding answer
update_one-Lawful p f m =
    elim (Option-cases (change_first p (λ j. stored codec (f j)) m.view.docs)) [
      | inl e ↦
          rw (e, answer) (inl (refl, NoneOf-change p (λ j. stored codec (f j)) m.view.docs e, refl))
      | inr ((j, ks), e) ↦
          rw (e, answer)
            (inr (
              j,
              refl,
              record {
                new_docs = ks;
                touched = Touched-change p (λ k. stored codec (f k)) j m.view.docs ks e;
                after = refl;
              },
            ))
    ]

find_one_and_update-Lawful :
    (p : Job → Bool) (f : Job → Job) (before : Job → Job → Bool)
    → Lawful (find_one_and_update p f before)
unfolding answer
find_one_and_update-Lawful p f before m =
    elim (Option-cases (
      change_first (λ j. p j && is_first p before j m.view.docs) (λ j. stored codec (f j))
        m.view.docs)) [
          | inr ((j, ks), e) ↦
              let t : Touched (λ k. p k && is_first p before k m.view.docs)
                  (λ k. stored codec (f k)) j m.view.docs ks =
                Touched-change (λ k. p k && is_first p before k m.view.docs)
                  (λ k. stored codec (f k)) j m.view.docs ks e in
              rw (e, answer)
                (
                  j,
                  record {
                    new_docs = ks;
                    touched =
                        Touched-weaken p (λ k. p k && is_first p before k m.view.docs)
                          (λ k. stored codec (f k)) (λ k q. ground arith) t;
                    after = refl;
                  },
                  IsFirst-of p before j m.view.docs (let q = Touched-passes t in ground arith),
                  refl,
                )
          | inl e ↦ elim (Option-cases (first_of_docs p m.view.docs)) [
            | inl n ↦ rw (e, n, answer) ((λ _. (NoneOf-first p m.view.docs n, refl)), inl refl)
            | inr (j, n) ↦ rw (e, n, answer) ((λ h. absurd (ground arith)), inl refl)
          ]
        ]

find-Lawful :
    (p : Job → Bool) (limit : ℤ) (before : Job → Job → Bool) → Lawful (find p limit before)
unfolding answer
find-Lawful p limit before m =
    let all = sort_by before (filter_if p m.view.docs) in
    let page = (cut limit all).0 in
    let left = (cut limit all).1 in
    elim (Bool-cases (in_order before page && all_after before page left)) [
      | inl e ↦
          rw (e, answer)
            (
              All-cut _ limit all
                  (All-sort_by _ before (filter_if p m.view.docs) (filter_if-Listed p m.view.docs)),
              length-cut limit all,
              SortedBy-of before page (and_left _ _ e),
              (λ k mem h.
                  elim (Memᴰ-cut k limit all (
                    Memᴰ-sort_by before k (filter_if p m.view.docs)
                      (Memᴰ-filter_if p k m.view.docs mem h))) [
                        | inl here ↦ inl here
                        | inr (rest, full) ↦
                            inr (full, left_after before k page left (and_right _ _ e) rest)
                      ]),
              refl,
            )
      | inr e ↦ rw (e, answer) refl
    ]

half_lt : (n : ℕ) → (n / 2 < n) ⊎ (n ≡ 0)
half_lt zero = inr refl
half_lt (suc n) = inl (omega arith)

-- Each message that was taken is delivered again with every poll.
all_produced :
    (ms ns : List Message)
    → ((m : Message) → Memᴰ m ms → Memᴰ m ns)
    → All (λ v. (m : Message) × Memᴰ m ns × (m.value ≡ v)) (map (λ (m : Message). m.value) ms)
all_produced [] ns h = tt
all_produced (m ∷ ms) ns h =
    ((m, h m (Memᴰ.head refl), refl), all_produced ms ns (λ k i. h k (Memᴰ.tail i)))

pub reply-Lawful : (c : Cmd) → Lawful c
unfolding answer
reply-Lawful (create_indexes ixs) m = create_indexes-Lawful ixs m
reply-Lawful (insert_one j) m = insert_one-Lawful j m
reply-Lawful (find_one p) m = find_one-Lawful p m
reply-Lawful (find p limit before) m = find-Lawful p limit before m
reply-Lawful (find_one_and_update p f before) m = find_one_and_update-Lawful p f before m
reply-Lawful (update_one p f) m = update_one-Lawful p f m
reply-Lawful (update_many p f) m = (refl, λ _. refl)
reply-Lawful (from_hex t) m = ((λ i e. rw (e, from_unary-unary i)), refl)
reply-Lawful (rand_intn n) m = (half_lt n, refl)
reply-Lawful poll_fetches m = (all_produced m.view.produced m.view.produced (λ k i. i), refl)
reply-Lawful (hex i) m = (refl, refl)
reply-Lawful (cron_next expr after) m = (refl, refl)
reply-Lawful _ m = refl

-- The world in memory.
abbrev pub memory : World
memory = record {
  codec = codec;
  State = Memory;
  view = λ m. m.view;
  exec = reply;
  lawful = reply-Lawful;
}
