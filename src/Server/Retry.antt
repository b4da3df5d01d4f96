-- ===== src/Server/Retry.antt =====
-- main/cov_retry_cache.h and main/cov_retry_cache.c: the copy of a confirmed notification that its
-- retries send. A pointer that is NULL or not is an `Option`.
use esp32_p4_bacnet_switches.Base.{
  ℕ, ◌≤◌, ◌≡◌, ◌||◌, List, [], ◌++◌, Option, none, some, ltb, ◌==◌, if◌then◌else◌, length, take,
  drop, replicate, arith, take-append,
}

abbrev pub payload_capacity : ℕ
payload_capacity = 128

-- `cov_retry_cache_t`, its field `length` as `size`.
pub record RetryCache : Type 0 where
  pub bytes : List ℕ
  pub size : ℕ

-- What `cov_retry_cache_clear` and the `memset` of a whole subscription leave.
abbrev pub cleared_cache : RetryCache
cleared_cache = record { bytes = replicate payload_capacity 0; size = 0 }

unfoldable pub cov_retry_cache_capture : RetryCache → List ℕ → Option RetryCache
cov_retry_cache_capture cache payload =
    if length payload == 0 || ltb payload_capacity (length payload)
    then none
    else some
        (record { bytes = payload ++ drop (length payload) cache.bytes; size = length payload })

unfoldable pub cov_retry_cache_data : RetryCache → Option (List ℕ)
cov_retry_cache_data cache = if ltb 0 cache.size then some cache.bytes else none

unfoldable pub cov_retry_cache_length : RetryCache → ℕ
cov_retry_cache_length cache = cache.size

-- The octets that a retry sends.
unfoldable pub retry_payload : RetryCache → List ℕ
unfolding cov_retry_cache_data cov_retry_cache_length
retry_payload cache = elim (cov_retry_cache_data cache) [
  | none ↦ []
  | some bytes ↦ take (cov_retry_cache_length cache) bytes
]

-- What was captured is what a retry sends, and it is not empty.
pub retry_payload-capture :
    (cache : RetryCache) (payload : List ℕ) {kept : RetryCache}
    → cov_retry_cache_capture cache payload ≡ some kept
    → (retry_payload kept ≡ payload) × (1 ≤ kept.size)
unfolding cov_retry_cache_capture retry_payload
retry_payload-capture cache payload h =
    ground (arith, take-append payload (drop (length payload) cache.bytes))
