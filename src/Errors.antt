-- ===== src/Errors.antt =====
-- The errors that the program makes (`errors.New`, `fmt.Errorf`) or receives, and Go's pair of a
-- value and an error.
use high_scale_job_scheduler.Prelude.{ℕ, String, Bool, true, false}

-- `no_documents` and `duplicate_key` are the two driver errors that the code tells apart; any other
-- error of a library or a service is `foreign`, with a number that stands for its value.
pub data Error : Type 0 where
  not_found : Error
  duplicate_idempotency_key : Error
  no_documents : Error
  duplicate_key : Error
  foreign : ℕ → Error
  no_handler : String → Error
  missing_message : Error
  flaky_failure : ℕ → Error
  invalid_cron : String → Error → Error
  spawn_failed : Error → Error
  etcd_client_init : Error → Error
  etcd_session_init : Error → Error
  campaign_failed : Error → Error
  kafka_producer_init : Error → Error
  kafka_consumer_init : Error → Error

pub data Result {ℓ} (A : Type ℓ) : Type ℓ where
  ok : A → Result A
  err : Error → Result A

-- `errors.Is(err, ErrNotFound)` and its like: the error or one that it wraps.
unfoldable pub is_not_found : Error → Bool
is_not_found not_found = true
is_not_found (invalid_cron expr e) = is_not_found e
is_not_found (spawn_failed e) = is_not_found e
is_not_found (etcd_client_init e) = is_not_found e
is_not_found (etcd_session_init e) = is_not_found e
is_not_found (campaign_failed e) = is_not_found e
is_not_found (kafka_producer_init e) = is_not_found e
is_not_found (kafka_consumer_init e) = is_not_found e
is_not_found _ = false

unfoldable pub is_duplicate_idempotency_key : Error → Bool
is_duplicate_idempotency_key duplicate_idempotency_key = true
is_duplicate_idempotency_key (invalid_cron expr e) = is_duplicate_idempotency_key e
is_duplicate_idempotency_key (spawn_failed e) = is_duplicate_idempotency_key e
is_duplicate_idempotency_key (etcd_client_init e) = is_duplicate_idempotency_key e
is_duplicate_idempotency_key (etcd_session_init e) = is_duplicate_idempotency_key e
is_duplicate_idempotency_key (campaign_failed e) = is_duplicate_idempotency_key e
is_duplicate_idempotency_key (kafka_producer_init e) = is_duplicate_idempotency_key e
is_duplicate_idempotency_key (kafka_consumer_init e) = is_duplicate_idempotency_key e
is_duplicate_idempotency_key _ = false

-- `errors.Is(err, mongo.ErrNoDocuments)` and `mongo.IsDuplicateKeyError(err)`, on driver errors.
abbrev pub is_no_documents : Error → Bool
is_no_documents no_documents = true
is_no_documents _ = false

abbrev pub is_duplicate_key : Error → Bool
is_duplicate_key duplicate_key = true
is_duplicate_key _ = false
