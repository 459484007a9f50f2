-- ===== src/Dispatch.antt =====
-- internal/dispatch/producer.go and consumer.go. A Kafka client is the world's; the JSON body of a
-- message is the message itself, and marshalling one cannot fail.
use high_scale_job_scheduler.Prelude.{
  ℕ, zero, suc, String, Bool, true, false, List, [], ◌∷◌, Option, none, some,
}
use high_scale_job_scheduler.Errors.{Error, ok, err, kafka_producer_init, kafka_consumer_init}
use high_scale_job_scheduler.Topics.{DispatchMessage, dispatch_topic, retry_topic, dlq_topic}
use high_scale_job_scheduler.Effects.{
  Prog, ret, ask, ◌>>=◌, produce, poll_fetches, commit_offsets, context_done, kafka_client,
  close_kafka,
}
use high_scale_job_scheduler.Store.{error_of}

-- `NewProducer`: the producer is its client, which the world keeps.
unfoldable pub new_producer : List String → Prog (Option Error)
new_producer brokers = ask (kafka_client brokers none) >>= λ r. elim r [
  | err e ↦ ret (some (kafka_producer_init e))
  | ok _ ↦ ret none
]

-- `Producer.Close`.
unfoldable pub close : Prog (Unit {0})
close = ask close_kafka

-- `NewConsumer`: the group that its client joins, and the topic that it reads.
unfoldable pub new_consumer : List String → String → String → Prog (Option Error)
new_consumer brokers job_type group_id =
    ask (kafka_client brokers (some (group_id, dispatch_topic job_type))) >>= λ r. elim r [
      | err e ↦ ret (some (kafka_consumer_init e))
      | ok _ ↦ ret none
    ]

-- `ProduceSync` of one record, and its `FirstErr`.
abbrev pub publish : String → DispatchMessage → Prog (Option Error)
publish topic msg = do
  r ← ask (produce (record { topic = topic; key = msg.job_id; value = some msg }))
  ret (error_of r)

unfoldable pub publish_dispatch : DispatchMessage → Prog (Option Error)
publish_dispatch msg = publish (dispatch_topic msg.job_type) msg

unfoldable pub publish_retry : DispatchMessage → Prog (Option Error)
publish_retry msg = publish retry_topic msg

unfoldable pub publish_dlq : DispatchMessage → Prog (Option Error)
publish_dlq msg = publish dlq_topic msg

-- The body of `EachRecord`: a value that is no message is passed over, and the handler's error is
-- only logged.
unfoldable pub each_record :
    (DispatchMessage → Prog (Option Error)) → List (Option DispatchMessage) → Prog (Unit {0})
each_record handler [] = ret tt
each_record handler (none ∷ rs) = each_record handler rs
each_record handler (some msg ∷ rs) = handler msg >>= λ _. each_record handler rs

-- `Run`, for at most the given number of rounds; it answers whether it returned within them.
unfoldable pub consume : ℕ → (DispatchMessage → Prog (Option Error)) → Prog Bool
consume zero handler = ret false
consume (suc n) handler = ask context_done >>= λ stopped. elim stopped [
  | true ↦ ask close_kafka >>= λ _. ret true
  | false ↦ ask poll_fetches >>= λ fetches. elim fetches.client_closed [
    | true ↦ ret true
    | false ↦
        each_record handler fetches.records >>= λ _. ask commit_offsets >>= λ _. consume n handler
  ]
]
