-- ===== src/Jobs/Worker/Retries/Data.antt =====
-- The data of a job that is tried again.
use cppapiframework.Common.{ℕ, ◌≡◌, refl, false, none, some, Bytes, text, str_eq, arith}
use cppapiframework.Common.Dict.{
  Dict, lookup, insert, erase, insert_all, lookup-insert, lookup-erase, lookup-insert_all,
}
use cppapiframework.Common.Decimal.{to_string}
use cppapiframework.Jobs.Handler.{save_job_log, put_log_in_data_map}
use cppapiframework.Jobs.Worker.Retries.{Kept}

module _ (out err : Bytes) (t m : ℕ) (d : Dict Bytes) where
  -- What `work` leaves of the data, with the counters refreshed.
  abbrev pub retried_data : Dict Bytes
  retried_data = insert (text "maxtries") (to_string m) (
      insert (text "tries") (to_string t)
        (save_job_log out err (erase (text "retryAfter") (erase (text "payload") d))))

  -- The logs stand under other names.
  lookup-logged :
      (k : Bytes) (e : Dict Bytes)
      → str_eq (text "JobStdout") k ≡ false
      → str_eq (text "JobStderr") k ≡ false
      → lookup k (save_job_log out err e) ≡ lookup k e
  unfolding save_job_log put_log_in_data_map
  lookup-logged k e h h' = rw (lookup-insert, h, lookup-insert, h') refl

  retried_tries : lookup (text "tries") retried_data ≡ some (to_string t)
  unfolding str_eq
  retried_tries = rw (lookup-insert, lookup-insert) refl

  retried_maxtries : lookup (text "maxtries") retried_data ≡ some (to_string m)
  unfolding str_eq
  retried_maxtries = rw (lookup-insert) refl

  retried_payload : lookup (text "payload") retried_data ≡ none
  unfolding str_eq
  retried_payload =
      rw
        (
          lookup-insert,
          lookup-insert,
          lookup-logged (text "payload") _ refl refl,
          lookup-erase,
          lookup-erase,
        )
        refl

  retried_delay : lookup (text "retryAfter") retried_data ≡ none
  unfolding str_eq
  retried_delay =
      rw (lookup-insert, lookup-insert, lookup-logged (text "retryAfter") _ refl refl, lookup-erase)
        refl

  retried_class : lookup (text "className") retried_data ≡ lookup (text "className") d
  unfolding str_eq
  retried_class =
      rw
        (
          lookup-insert,
          lookup-insert,
          lookup-logged (text "className") _ refl refl,
          lookup-erase,
          lookup-erase,
        )
        refl

  -- Merged into what is kept, the data are those of one more try.
  pub retried-Kept :
      (payload : Bytes) (before : ℕ)
      → Kept payload before m d
      → Kept payload t m (insert_all retried_data d)
  retried-Kept payload before k = record {
    tries = ground (arith, lookup-insert_all (text "tries") retried_data d, retried_tries);
    maxtries = ground (arith, lookup-insert_all (text "maxtries") retried_data d, retried_maxtries);
    payload_kept =
        ground (arith, lookup-insert_all (text "payload") retried_data d, retried_payload);
    class_kept = (
      k.class_kept.0,
      ground (
        arith,
        lookup-insert_all (text "className") retried_data d,
        retried_class,
        k.class_kept.1,
      ),
    );
    no_delay = ground (arith, lookup-insert_all (text "retryAfter") retried_data d, retried_delay);
  }
