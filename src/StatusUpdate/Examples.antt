-- ===== src/StatusUpdate/Examples.antt =====
-- A small API server for status updates, and the theorems at concrete inputs.
use reposhift.Common.{
  ℕ, zero, suc, ◌≡◌, ◌≤◌, refl, ◌⊎◌, inl, inr, String, none, some, ◌+◌, [], ◌∷◌, count_if,
}
use reposhift.StatusUpdate.{fresh, Answer, saved, conflict, Api, update_status_with_retry}
use reposhift.StatusUpdate.Lost.{Server, update_status_with_retry-conflict}
use reposhift.Common.Int.{pos, ◌-ℤ◌}
use reposhift.StatusUpdate.Attempts.{Counter, update_status_with_retry_le}
use reposhift.StatusUpdate.Batch.{Pending, flush}
use reposhift.StatusUpdate.Batch.Flushing.{succeeds, last_failure, errors_of, flush-errors_of}

-- the stored number, and how many updates still conflict
record Store : Type 0 where
  value : ℕ
  conflicts : ℕ

-- an update of a store by its number of conflicts to come
abbrev sent_to : ℕ → ℕ → ℕ → Answer × Store
sent_to zero value o = (saved, record { value = o; conflicts = 0 })
sent_to (suc n) value o = (conflict "stale", record { value = value; conflicts = n })

abbrev small_api : Api
small_api = record {
  World = Store;
  Object = ℕ;
  key = λ o. "default/one";
  get = λ w o. (fresh w.value, w);
  status_update = λ w o. sent_to w.conflicts w.value o;
  sleep = λ w t. w;
}

abbrev stale_once : Store
stale_once = record { value = 4; conflicts = 1 }

-- the second attempt succeeds, and no error is returned
stale_once_error : (update_status_with_retry small_api 3 9 stale_once).error ≡ none
unfolding update_status_with_retry
stale_once_error = refl

fresh-eq : (n v : ℕ) → fresh v ≡ fresh n → n ≡ v
fresh-eq n v h = cc

sent_to-conflict :
    (k v o : ℕ) (x : String) → (sent_to k v o).0 ≡ conflict x → (sent_to k v o).1.value ≡ v
sent_to-conflict zero v o x h = absurd (cc h)
sent_to-conflict (suc k) v o x h = refl

sent_to-value : (k v o : ℕ) → ((sent_to k v o).1.value ≡ o) ⊎ ((sent_to k v o).1.value ≡ v)
sent_to-value zero v o = inl refl
sent_to-value (suc k) v o = inr refl

abbrev small_server : Server small_api
small_server = record {
  stored = λ w. w.value;
  stored-sleep = λ w t. refl;
  stored-get = λ w o. refl;
  get-stored = λ w o n h. fresh-eq n w.value h;
  stored-conflict = λ w o x h. sent_to-conflict w.conflicts w.value o x h;
  stored-status_update = λ w o. sent_to-value w.conflicts w.value o;
}

update_status_with_retry-conflict_example :
    (update_status_with_retry small_api 3 9 stale_once).world.value ≡ 4
update_status_with_retry-conflict_example =
    update_status_with_retry-conflict small_api small_server 3 9 stale_once "stale" refl

-- the same, with a count of the updates
abbrev counted_api : Api
counted_api = record {
  World = ℕ × Store;
  Object = ℕ;
  key = λ o. "default/one";
  get = λ w o. (fresh w.1.value, w);
  status_update = λ w o.
      ((sent_to w.1.conflicts w.1.value o).0, (suc w.0, (sent_to w.1.conflicts w.1.value o).1));
  sleep = λ w t. w;
}

abbrev counter : Counter counted_api
counter = record {
  count = λ w. w.0;
  count-sleep = λ w t. refl;
  count-get = λ w o. refl;
  count-status_update = λ w o. refl;
}

-- the first update conflicts and the second is stored
twice : (update_status_with_retry counted_api 3 9 (5, stale_once)).world.0 ≡ 7
unfolding update_status_with_retry
twice = refl

update_status_with_retry_le_example :
    (update_status_with_retry counted_api 3 9 (5, stale_once)).world.0 ≤ 5 + 3
update_status_with_retry_le_example =
    update_status_with_retry_le counted_api counter 3 9 (5, stale_once)

-- an update that conflicts each of three times, and one that is stored
abbrev stale_three_times : Store
stale_three_times = record { value = 4; conflicts = 3 }

abbrev two_pending : Pending small_api
two_pending = ("default/one", 9) ∷ ("default/two", 5) ∷ []

one_fails : errors_of small_api two_pending stale_three_times ≡ some "stale" ∷ none ∷ []
unfolding errors_of update_status_with_retry
one_fails = refl

flush-errors_of_example :
    ((flush small_api two_pending stale_three_times).error
      ≡ last_failure none (errors_of small_api two_pending stale_three_times))
    × ((flush small_api two_pending stale_three_times).pending ≡ [])
    × ((flush small_api two_pending stale_three_times).logged_failed
        ≡ some
            (pos 0 -ℤ pos (count_if succeeds (errors_of small_api two_pending stale_three_times))))
flush-errors_of_example =
    flush-errors_of small_api ("default/one", 9) (("default/two", 5) ∷ []) stale_three_times
