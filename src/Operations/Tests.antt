-- ===== src/Operations/Tests.antt =====
-- A cache, two operators and their requests.
use trend_engine_backend.Base.{
  ℕ, ◌+◌, ◌/◌, ◌%◌, ◌≡◌, refl, ◌⊎◌, true, Option, none, some, [], ◌∷◌, ◌++◌, Text, codes, eq_text,
  arith, if◌then◌else◌, ok,
}
use trend_engine_backend.Base.Int.{ℤ, ◌+ℤ◌, pos, negsuc}
use trend_engine_backend.Operations.Throttle.{
  Cache, Bucket, client_ip, exceeded, record_attempt, clear,
}
use trend_engine_backend.Operations.ClientAddress.{client_ip_unforgeable}
use trend_engine_backend.Operations.Buckets.{tried}
use trend_engine_backend.Operations.Totp.{Generator, verify, verify_at, current_counter}
use trend_engine_backend.Operations.Mfa.{
  OperatorUser, Accounts, Crypto, LoginSession, pending_user, verify_code,
}
use trend_engine_backend.Operations.Factor.{IsShown, IsConsumed, second_factor_spent}
use trend_engine_backend.Operations.Api.{
  Realm, Site, authenticate, login_post, mfa_verify_post, pending_or_401,
}
use trend_engine_backend.Operations.SignIn.{
  Request, login, second_factor, serve, proves, Visit, anonymous, request, Both,
}
use trend_engine_backend.Operations.SignInSteps.{signed_in-Both}

-- A cache in which nothing expires: the count under every key.
abbrev Counts : Type 0
Counts = Text → Option ℕ

abbrev set_count : Text → Option ℕ → Counts → Counts
set_count k value s j = if eq_text k j then value else s j

abbrev or_else : Option ℕ → ℕ → ℕ
or_else o d = elim o [ none ↦ d | some n ↦ n ]

abbrev incremented : Counts → Text → Option ℕ → Option (ℕ × Counts)
incremented s k none = none
incremented s k (some n) = some (n + 1, set_count k (some (n + 1)) s)

abbrev counts : Cache
counts = record {
  State = Counts;
  lookup = λ s k. s k;
  get = λ s k d. or_else (s k) d;
  add = λ s k n w. set_count k (some (or_else (s k) n)) s;
  incr = λ s k. incremented s k (s k);
  put = λ s k n w. set_count k (some n) s;
  delete = λ s k. set_count k none s;
  get_lem = λ s k d. refl;
  lookup-add = λ s k j n w. refl;
  lookup-put = λ s k j n w. refl;
  lookup-delete = λ s k j. refl;
  incr_absent = λ s k e. rw e refl;
  incr_present = λ s k n e. (set_count k (some (n + 1)) s, rw e refl, λ j. refl);
}

abbrev nothing_counted : Counts
nothing_counted k = none

abbrev bucket : Bucket
bucket = record { key = codes "ops-login:a"; limit = 2; window = 300 }

tried_run : tried counts 5 nothing_counted bucket ≡ 2
unfolding tried exceeded record_attempt
tried_run = refl

client_ip_unforgeable_example :
    client_ip 1 (codes "10.0.0.1") (codes "1.2.3.4" ++ b',' ∷ codes " 9.9.9.9")
    ≡ client_ip 1 (codes "10.0.0.1") (codes " 9.9.9.9")
client_ip_unforgeable_example =
    client_ip_unforgeable 1 (codes "10.0.0.1") (codes "1.2.3.4") (codes " 9.9.9.9") (omega arith)

client_ip_run : client_ip 1 (codes "10.0.0.1") (codes "1.2.3.4, 9.9.9.9") ≡ codes "9.9.9.9"
unfolding client_ip
client_ip_run = refl

-- The authenticator's code is the number of the step in its last two digits.
abbrev digits : ℤ → Text
digits (pos n) = (48 + n / 300 % 10) ∷ (48 + n / 30 % 10) ∷ []
digits (negsuc n) = codes "00"

abbrev generate : Generator
generate secret at = digits at

abbrev crypto : Crypto
crypto = record {
  generate = generate;
  encrypt = λ s. s;
  decrypt = λ s. some s;
  check_password = eq_text;
  make_password = λ s. s;
  decrypt-encrypt = λ s. refl;
}

abbrev ada : OperatorUser
ada = record {
  pk = 1;
  email = codes "ada@x.io";
  password = codes "secret";
  is_active = true;
  mfa_enabled = true;
  totp_secret = codes "K";
  totp_confirmed_at = some 0;
  totp_last_counter = pos 3;
}

abbrev accounts : Accounts
accounts = record {
  users = ada ∷ [];
  codes = record { pk = 1; operator_id = 1; code_hash = codes "ABCDE"; used_at = none } ∷ [];
  next_code = 2;
  audit = [];
}

abbrev pending : LoginSession
pending = record { user = none; pending = some 1; since = some 100 }

abbrev fresh : LoginSession
fresh = record { user = none; pending = none; since = none }

-- At second 150 the step is 5.
verify_run : verify generate (codes "K") (codes " 05 ") (pos 3) 150 ≡ some (pos 5)
unfolding verify verify_at current_counter ◌+ℤ◌
verify_run = refl

-- A step that was used is refused.
verify_replay_run : verify generate (codes "K") (codes "05") (pos 5) 150 ≡ none
unfolding verify verify_at current_counter ◌+ℤ◌
verify_replay_run = refl

pending_run : (pending_user 200 accounts pending).0 ≡ some ada
unfolding pending_user
pending_run = refl

pending_expired_run : (pending_user 701 accounts pending).0 ≡ none
unfolding pending_user
pending_expired_run = refl

abbrev accounts_after : Accounts
accounts_after = record accounts { users = record ada { totp_last_counter = pos 5 } ∷ [] }

verify_code_run : verify_code crypto ada (codes "05") 150 accounts ≡ ok (true, accounts_after)
unfolding verify_code verify verify_at current_counter ◌+ℤ◌
verify_code_run = refl

second_factor_spent_example :
    IsShown crypto ada (codes "05") 150 accounts_after
    ⊎ IsConsumed crypto ada (codes "05") accounts accounts_after
second_factor_spent_example =
    second_factor_spent crypto ada (codes "05") 150 accounts accounts_after refl verify_code_run

verify_unspaced_run : verify generate (codes "K") (codes "05") (pos 3) 150 ≡ some (pos 5)
unfolding verify verify_at current_counter ◌+ℤ◌
verify_unspaced_run = refl

abbrev realm : Realm
realm = record {
  limits = record {
    window = 300;
    login_max = 5;
    login_max_per_ip = 20;
    mfa_max = 5;
    mfa_max_per_ip = 20;
  };
  require_mfa = true;
  decimal = λ n. (48 + n) ∷ [];
  login = λ u s. record s { user = some u.pk };
  logout = λ s. fresh;
  login-user = λ u s. refl;
  login-pending = λ u s e. e;
  logout-user = λ s. refl;
  logout-pending = λ s. refl;
}

abbrev lapse : Counts → Counts
lapse s = s

abbrev site : Site Counts
site = record { cache = nothing_counted; session = fresh; accounts = accounts }

abbrev sign_in : Request
sign_in = login (codes "9.9.9.9") (some (codes "Ada@x.io", codes "secret"))

abbrev give_code : Request
give_code = second_factor (codes "9.9.9.9") (some (codes "05"))

abbrev site_pending : Site Counts
site_pending = (serve counts lapse crypto realm 140 sign_in site).1

abbrev site_in : Site Counts
site_in = (serve counts lapse crypto realm 150 give_code site_pending).1

visit : Visit counts lapse crypto realm site_in (
    proves counts lapse crypto realm 150 give_code site_pending
    ++ (proves counts lapse crypto realm 140 sign_in site ++ []))
visit = request 150 give_code (request 140 sign_in (anonymous refl))

signed_in_run : site_in.session.user ≡ some 1
unfolding login_post mfa_verify_post pending_or_401 pending_user exceeded authenticate clear
    verify_code verify verify_at current_counter ◌+ℤ◌
signed_in_run = refl

signed_in-Both_example : Both 1 (
    proves counts lapse crypto realm 150 give_code site_pending
    ++ (proves counts lapse crypto realm 140 sign_in site ++ []))
signed_in-Both_example =
    signed_in-Both counts lapse crypto realm refl site_in
      (proves counts lapse crypto realm 150 give_code site_pending
        ++ (proves counts lapse crypto realm 140 sign_in site ++ []))
      1 visit signed_in_run
