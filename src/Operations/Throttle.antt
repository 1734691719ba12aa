-- ===== src/Operations/Throttle.antt =====
-- apps/operations/throttle.py: the caller's address, and counters with a ceiling over Django's cache.
use trend_engine_backend.Base.{
  ℕ, ◌+◌, ◌-◌, ◌≡◌, Bool, false, not, Option, none, some, List, map, filter, length, get_elem?, leb,
  if◌then◌else◌, Text, codes, eq_text, is_empty, strip, split, ◌++◌,
}

-- `[part.strip() for part in forwarded.split(",") if part.strip()]`
abbrev pub hops : Text → List Text
hops forwarded = filter (λ part. not (is_empty part)) (map strip (split b',' forwarded))

abbrev or_remote : Text → Option Text → Text
or_remote remote none = remote
or_remote remote (some hop) = hop

-- `client_ip`: depth is TRUSTED_PROXY_DEPTH, remote is REMOTE_ADDR and forwarded is
-- X-Forwarded-For, empty where the header is missing.
unfoldable pub client_ip : ℕ → Text → Text → Text
client_ip depth remote forwarded =
    if leb depth 0
    then remote
    else if leb depth (length (hops forwarded))
    then or_remote remote (get_elem? (hops forwarded) (length (hops forwarded) - depth))
    else remote

-- Django's cache, as `Bucket` uses it: counters under keys. `lookup` says what is stored under a
-- key that has not expired; the laws are the documented behaviour of the five calls.
pub record Cache : Type 1 where
  pub State : Type 0
  pub lookup : State → Text → Option ℕ
  pub get : State → Text → ℕ → ℕ
  pub add : State → Text → ℕ → ℕ → State
  pub incr : State → Text → Option (ℕ × State)
  pub put : State → Text → ℕ → ℕ → State
  pub delete : State → Text → State
  pub get_lem :
      (s : State) (k : Text) (d : ℕ) → get s k d ≡ (elim (lookup s k) [ none ↦ d | some n ↦ n ])
  pub lookup-add :
      (s : State) (k j : Text) (n w : ℕ)
      → lookup (add s k n w) j
        ≡ (if eq_text k j then some (elim (lookup s k) [ none ↦ n | some m ↦ m ]) else lookup s j)
  pub lookup-put :
      (s : State) (k j : Text) (n w : ℕ)
      → lookup (put s k n w) j ≡ (if eq_text k j then some n else lookup s j)
  pub lookup-delete :
      (s : State) (k j : Text) → lookup (delete s k) j ≡ (if eq_text k j then none else lookup s j)
  pub incr_absent : (s : State) (k : Text) → lookup s k ≡ none → incr s k ≡ none
  pub incr_present :
      (s : State) (k : Text) (n : ℕ)
      → lookup s k ≡ some n
      → (s' : State) × (incr s k ≡ some (n + 1, s'))
        × ((j : Text) → lookup s' j ≡ (if eq_text k j then some (n + 1) else lookup s j))

-- `Bucket`
pub record Bucket : Type 0 where
  pub key : Text
  pub limit : ℕ
  pub window : ℕ

module _ (cache : Cache) where
  open cache use {State, get, add, incr, put, delete}

  -- `Bucket.exceeded`
  unfoldable pub exceeded : State → Bucket → Bool
  exceeded s b = if leb b.limit 0 then false else leb b.limit (get s b.key 0)

  abbrev pub after_incr : State → Bucket → Option (ℕ × State) → ℕ × State
  after_incr s b none = (1, put s b.key 1 b.window)
  after_incr s b (some (n, s')) = (n, s')

  -- `Bucket.record`. Keys may expire between the `add` and the `incr`: `lapse` is what time does to
  -- the cache there.
  unfoldable pub record_attempt : (State → State) → State → Bucket → ℕ × State
  record_attempt lapse s b =
      let s' = lapse (add s b.key 0 b.window) in after_incr s' b (incr s' b.key)

  -- `Bucket.clear`
  unfoldable pub clear : State → Bucket → State
  clear s b = delete s b.key

-- The four limits and the window of the settings.
pub record Limits : Type 0 where
  pub window : ℕ
  pub login_max : ℕ
  pub login_max_per_ip : ℕ
  pub mfa_max : ℕ
  pub mfa_max_per_ip : ℕ

-- `login_buckets`
abbrev pub login_buckets : Limits → Text → Text → Bucket × Bucket
login_buckets limits ip email = (
  record { key = codes "ops-login:" ++ email; limit = limits.login_max; window = limits.window },
  record {
    key = codes "ops-login-ip:" ++ ip;
    limit = limits.login_max_per_ip;
    window = limits.window;
  },
)

-- `mfa_buckets`; the user's key in decimal is given.
abbrev pub mfa_buckets : Limits → Text → Text → Bucket × Bucket
mfa_buckets limits ip user = (
  record { key = codes "ops-mfa:" ++ user; limit = limits.mfa_max; window = limits.window },
  record { key = codes "ops-mfa-ip:" ++ ip; limit = limits.mfa_max_per_ip; window = limits.window },
)
