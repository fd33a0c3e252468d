-- ===== src/Tasks/Tests.antt =====
-- A cleanup of a token that has expired and of one that has not.
use bingsan.Prelude.{◌≡◌, refl, String, Bool, false, none, some, [], ◌∷◌, arith}
use bingsan.Prelude.Int.{ℤ, pos}
use bingsan.Updates.Exec.{Result, ok}
use bingsan.Leader.{Elector, lock_key_cleanup, is_leader, try_acquire}
use bingsan.Auth.{Principal, TokenRow, KeyRow}
use bingsan.Auth.Credentials.{validate_bearer_token, validate_api_key}
use bingsan.Auth.Rotation.{all_up}
use bingsan.Tasks.{Cleaned, Task, execute_task, cleanup_expired_tokens}
use bingsan.Tasks.Cleanup.{cleanup_expired_tokens-eq}

abbrev plain : String → String
plain s = s

abbrev token_row : String → ℤ → TokenRow
token_row s t = record { access_token_hash = s; client_id = "root"; scopes = []; expires_at = t }

abbrev key_row : KeyRow
key_row = record {
  id = "k1";
  name = "ci";
  key_hash = "key";
  scopes = [];
  expires_at = some (pos 50);
  created_at = pos 0;
  last_used_at = none;
  previous_key_hash = none;
  rotated_at = none;
}

abbrev before : Cleaned
before = record {
  locks = [];
  plans = [];
  auth = record {
    tokens = token_row "old" (pos 5) ∷ token_row "new" (pos 90) ∷ [];
    keys = key_row ∷ [];
  };
}

cleanup_expired_tokens-eq_example :
    validate_bearer_token plain all_up
      (pos 20)
      "new"
      (cleanup_expired_tokens (false, false) (pos 10) before).1.auth
    ≡ validate_bearer_token plain all_up (pos 20) "new" before.auth
cleanup_expired_tokens-eq_example =
    cleanup_expired_tokens-eq plain (pos 10) (pos 20) (omega arith) (false, false) before "new"

abbrev key_owner : Principal
key_owner = record { id = "k1"; type = "api_key"; scopes = []; client_id = "ci" }

opened : (validate_api_key plain all_up (pos 20) "key" before.auth).0 ≡ ok key_owner
unfolding validate_api_key
opened = refl

abbrev other_leads : Elector
other_leads = record { node_id = "node"; locks = λ _. false }

abbrev lock_taken : Result String Bool
lock_taken = ok false

abbrev token_task : Task
token_task = record {
  name = "cleanup_expired_tokens";
  lock_key = lock_key_cleanup;
  interval = 300000000000;
  run = cleanup_expired_tokens (false, false) (pos 10);
}

follows :
    is_leader lock_key_cleanup (execute_task token_task lock_taken before other_leads).2 ≡ false
unfolding execute_task is_leader try_acquire
follows = refl
