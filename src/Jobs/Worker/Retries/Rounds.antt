-- ===== src/Jobs/Worker/Retries/Rounds.antt =====
-- The rounds of a worker over a job that fails in every run, on a lawful service.
use cppapiframework.Common.{
  ℕ, zero, suc, ◌+◌, ◌^◌, ◌<◌, ◌≤◌, ◌≡◌, refl, ap, ◌∙◌, inl, inr, true, false, some, if◌then◌else◌,
  Bytes, str_eq_refl, arith, List, [], ◌∷◌, ◌++◌, is_empty, Bool-cases, replicate, ltb,
}
use cppapiframework.Common.Dict.{Dict, lookup}
use cppapiframework.Common.Int.{pos, is_zero}
use cppapiframework.Queues.{GenericQueue, View, IsLawful}
use cppapiframework.Json.{Members}
use cppapiframework.Jobs.Handler.{JobStatus, JobClass, errorretry, errorremove}
use cppapiframework.Jobs.Flow.{World, done, call-done, query-done, ◌>>=◌}
use cppapiframework.Jobs.Worker.{QueueWorker, Surroundings}
use cppapiframework.Jobs.Worker.Work.{work}
use cppapiframework.Jobs.Worker.Results.{process_job_result}
use cppapiframework.Jobs.Worker.Results.Again.{kept_delay}
use cppapiframework.Jobs.Worker.Results.Laws.{process_job_result-Processed}
use cppapiframework.Jobs.Worker.Loop.{pop, do_one_job, do_one, loop}
use cppapiframework.Jobs.Worker.Retries.{Kept, IsPayload, AlwaysFails, may_retry}
use cppapiframework.Jobs.Worker.Retries.Work.{work-again, work-gives_up}

module _ (q : GenericQueue) (v : View q) (queue jobname payload : Bytes) (m : ℕ) where
  -- The job stands in front of the queue, and `t` of its tries are gone.
  pub record Waiting (t : ℕ) (rest : List Bytes) (world : World q.State) : Type 0 where
    pub in_queue : v.pending world.store queue ≡ jobname ∷ rest
    pub data_kept : Kept payload t m (v.persisted world.store jobname)

module _ (q : GenericQueue) (v : View q) (laws : IsLawful q v) (w : QueueWorker)
    (env : Surroundings) (queue jobname payload : Bytes) (c : JobClass) (dataobj : Members)
    (x : IsPayload env.poco w.jobhandler c dataobj payload) (f : AlwaysFails c dataobj) (m : ℕ)
    (small_max : m < 2 ^ 64) (no_fork : w.fork_to_handle ≡ false)
    (named : is_empty jobname ≡ false) where
  abbrev popped : World q.State → World q.State
  popped world = record world { store = (q.pop queue w.queue_timeout world.store).1 }

  pop-Waiting :
      (t : ℕ) (rest : List Bytes) (world : World q.State)
      → Waiting q v queue jobname payload m t rest world
      → pop q w queue w.queue_timeout world ≡ done jobname (popped world)
  unfolding pop
  pop-Waiting t rest world h = ground (
    arith,
    call-done (q.pop queue w.queue_timeout) world (some jobname)
        (laws.pop_ok queue w.queue_timeout world.store jobname rest h.in_queue),
  )

  popped_pending :
      (t : ℕ) (rest : List Bytes) (world : World q.State)
      → Waiting q v queue jobname payload m t rest world
      → v.pending (popped world).store queue ≡ rest
  popped_pending t rest world h =
      laws.pending-pop queue w.queue_timeout world.store jobname rest queue h.in_queue
      ∙ rw (str_eq_refl queue) refl

  popped_data :
      (t : ℕ) (rest : List Bytes) (world : World q.State)
      → Waiting q v queue jobname payload m t rest world
      → Kept payload t m (v.persisted (popped world).store jobname)
  popped_data t rest world h = rw (laws.persisted-pop queue w.queue_timeout world.store) h.data_kept

  Kept-nonempty : (t : ℕ) (d : Dict Bytes) → Kept payload t m d → is_empty d ≡ false
  Kept-nonempty t [] k = absurd (unfold lookup in cc k.tries)
  Kept-nonempty t (e ∷ d) k = refl

  do_one-steps :
      (t : ℕ) (rest : List Bytes) (world after final : World q.State) (r : JobStatus)
      (d' : Dict Bytes)
      → Waiting q v queue jobname payload m t rest world
      → work q w env queue jobname (v.persisted (popped world).store jobname) (popped world)
        ≡ done (r, d') after
      → process_job_result q w env.now queue jobname d' r after ≡ done tt final
      → do_one q w env queue world ≡ done true final
  unfolding do_one do_one_job
  do_one-steps t rest world after final r d' h e e' = ground (
    arith,
    pop-Waiting t rest world h,
    query-done (q.get_persistent_data jobname) (popped world)
        (v.persisted (popped world).store jobname)
        (laws.get_data jobname (popped world).store (
          Kept-nonempty t (v.persisted (popped world).store jobname) (popped_data t rest world h))),
  )

  kept_delay-Kept : (t : ℕ) (d : Dict Bytes) → Kept payload t m d → kept_delay d ≡ pos 0
  kept_delay-Kept t d k = ground (arith, k.no_delay)

  -- A round that leaves a further try: the job is at the end of its queue, with one try more.
  round-again :
      (t : ℕ) (rest : List Bytes) (world : World q.State)
      → t + 1 < 2 ^ 64
      → may_retry (t + 1) m ≡ true
      → Waiting q v queue jobname payload m t rest world
      → (final : World q.State) × (do_one q w env queue world ≡ done true final)
        × (v.pending final.store queue ≡ rest ++ jobname ∷ [])
        × Kept payload (t + 1) m (v.persisted final.store jobname)
  round-again t rest world small more h =
      let k = popped_data t rest world h in
      let d = v.persisted (popped world).store jobname in
      let (after, d', e, same, k') =
        work-again q w env queue jobname payload c dataobj x f t m small small_max no_fork more d
          (popped world) k in
      let k'' : Kept payload t m (v.persisted after.store jobname) = rw same k in
      let at_once : is_zero (kept_delay (v.persisted after.store jobname)) ≡ true =
        rw (kept_delay-Kept t (v.persisted after.store jobname) k'') refl in
      let (final, e', again) =
        process_job_result-Processed q v laws w env.now queue jobname d' after errorretry
          (inl at_once) in
      (
        final,
        do_one-steps t rest world after final errorretry d' h e e',
        again.pending_again queue
            ∙ rw
                (
                  kept_delay-Kept t (v.persisted after.store jobname) k'',
                  str_eq_refl queue,
                  same,
                  popped_pending t rest world h,
                )
                refl,
        rw (again.persisted_again jobname, str_eq_refl jobname, same) k',
      )

  -- The last round: the job is in its queue no longer.
  round-gives_up :
      (t : ℕ) (rest : List Bytes) (world : World q.State)
      → t + 1 < 2 ^ 64
      → may_retry (t + 1) m ≡ false
      → Waiting q v queue jobname payload m t rest world
      → (final : World q.State) × (do_one q w env queue world ≡ done true final)
        × (v.pending final.store queue ≡ rest)
  round-gives_up t rest world small no_more h =
      let (after, d', e, same) =
        work-gives_up q w env queue jobname payload c dataobj x f t m small small_max no_fork
          no_more (v.persisted (popped world).store jobname) (popped world)
          (popped_data t rest world h) in
      let (final, e', settled) =
        process_job_result-Processed q v laws w env.now queue jobname d' after errorremove tt in
      (
        final,
        do_one-steps t rest world after final errorremove d' h e e',
        settled.pending_same queue ∙ rw (same, popped_pending t rest world h) refl,
      )

  loop-cons :
      (rounds : List Surroundings) (world final : World q.State)
      → do_one q w env queue world ≡ done true final
      → loop q w (env ∷ rounds) queue world ≡ loop q w rounds queue final
  unfolding loop
  loop-cons rounds world final e = rw (e, ◌>>=◌) refl

  -- A job of at most m tries that throws in every run, alone in its queue with t < m of its tries
  -- gone, on a lawful service: the rounds of a worker that does not fork never throw, the job is
  -- still queued, once, after fewer than m - t rounds, and after m - t rounds the queue is empty.
  -- The payload must be one that the worker can read, of a registered class whose runs change no
  -- counter and ask for no delay; the job's name is not empty, and m is below 2^64.
  pub loop-Waiting :
      (rounds t : ℕ) (world : World q.State)
      → t < m
      → t + rounds ≤ m
      → Waiting q v queue jobname payload m t [] world
      → (final : World q.State) × (loop q w (replicate rounds env) queue world ≡ done tt final)
        × (v.pending final.store queue ≡ (if ltb (t + rounds) m then jobname ∷ [] else []))
  loop-Waiting zero t world low bound h =
      let more : ltb (t + 0) m ≡ true = ground arith in
      (world, unfold loop in refl, rw more h.in_queue)
  loop-Waiting (suc rounds) t world low bound h = elim (Bool-cases (ltb (t + 1) m)) [
    | inl more ↦
        let (next, e, queued, kept) = round-again t [] world (omega arith) (ground arith) h in
        let (final, e', p) =
          loop-Waiting rounds (t + 1) next (ground arith) (omega arith)
            (record { in_queue = queued; data_kept = kept }) in
        (final, loop-cons (replicate rounds env) world next e ∙ e', p ∙ ground arith)
    | inr last ↦
        let none_left : rounds ≡ 0 = ground arith in
        let (final, e, gone) = round-gives_up t [] world (omega arith) (ground arith) h in
        (
          final,
          ap (λ n. loop q w (replicate (suc n) env) queue world) none_left
              ∙ loop-cons [] world final e
              ∙ (unfold loop in refl),
          gone ∙ ground arith,
        )
  ]
