-- ===== src/Application/RecomputeService/Threads/Replicas.antt =====
-- Several processes of the service over the same databases and the same Redis, each with its own queue
-- and its own threads.
use mathlib.Core.List.{append_assoc}
use pg_analytics_service.Prelude.{
  ◌+◌, ◌≤◌, ◌≡◌, ◌≢◌, refl, sym, ap, ◌∙◌, Option, List, [], ◌∷◌, ◌++◌, All, All-append,
  All-append_left, All-append_right, count_if, count_if-append, Text, ◌=ₜ◌, =ₜ_refl, ℤ, arith,
}
use pg_analytics_service.Application.LockLaws.{LockSafety}
use pg_analytics_service.Application.RecomputeService.{RecomputeService, RecomputeJob, lock_key_of}
use pg_analytics_service.Application.RecomputeService.Locks.{Frames}
use pg_analytics_service.Application.RecomputeService.Threads.{
  rebuilding, Thread, worker, start_workers,
}
use pg_analytics_service.Application.RecomputeService.Threads.Claims.{
  Claim, queue_claims, thread_claims, count_on, AreSound,
}
use pg_analytics_service.Application.RecomputeService.Threads.Keys.{IsKeyed, HasKey}
use pg_analytics_service.Application.RecomputeService.Threads.Exclusion.{
  System, Step, Reach, IsExclusiveWith, focus, unfocus,
}
use pg_analytics_service.Application.RecomputeService.Threads.Exclusion
use pg_analytics_service.Application.RecomputeService.Threads.Scopes.{
  Inv, Step-Inv, start_workers-Inv, at_keys, counted,
}

pub record Replica : Type 0 where
  pub queue : List RecomputeJob
  pub threads : List Thread

pub record Cluster (S : Type 0) : Type 0 where
  pub world : S
  pub replicas : List Replica

abbrev pub replica_claims : Replica → List Claim
replica_claims r = queue_claims r.queue ++ thread_claims r.threads

abbrev pub cluster_claims : List Replica → List Claim
cluster_claims [] = []
cluster_claims (r ∷ rs) = replica_claims r ++ cluster_claims rs

cluster_claims-append :
    (rs qs : List Replica) → cluster_claims (rs ++ qs) ≡ cluster_claims rs ++ cluster_claims qs
cluster_claims-append [] qs = refl
cluster_claims-append (r ∷ rs) qs =
    ap (λ cs. replica_claims r ++ cs) (cluster_claims-append rs qs)
    ∙ sym (append_assoc (replica_claims r) (cluster_claims rs) (cluster_claims qs))

abbrev pub replica_of : {S : Type 0} → System S → Replica
replica_of s = record { queue = s.process.queue; threads = s.threads }

-- One replica among the others, in the state of the servers that its system names.
abbrev pub among : {S : Type 0} → List Replica → System S → List Replica → Cluster S
among before s after = record { world = s.process.world; replicas = before ++ replica_of s ∷ after }

abbrev HasKeys : Replica → Type 0
HasKeys r = All HasKey r.threads × All IsKeyed r.queue

module _ {S : Type 0} (service : RecomputeService S) {holder : S → Text → Option Text}
    (safety : LockSafety service.locks holder) (frames : Frames service holder) where
  -- One replica takes a step, with the servers as the others left them.
  pub data ClusterStep : Cluster S → Cluster S → Type 0 where
    acts :
        (before after : List Replica) (s t : System S)
        → Step service safety frames s t
        → ClusterStep (among before s after) (among before t after)

  pub data ClusterReach (c : Cluster S) : Cluster S → Type 0 where
    here : ClusterReach c c
    next : {d e : Cluster S} → ClusterReach c d → ClusterStep d e → ClusterReach c e

  -- What one replica does alone.
  pub Reach-among :
      (before after : List Replica) {c : Cluster S} (s t : System S)
      → Reach service safety frames s t
      → ClusterReach c (among before s after)
      → ClusterReach c (among before t after)
  Reach-among before after s t Exclusion.here r = r
  Reach-among before after s t (Exclusion.next q st) r =
      next (Reach-among before after s _ q r) (acts before after _ t st)

  record ClusterInv (c : Cluster S) : Type 0 where
    exclusive : AreSound (holder c.world) [] (cluster_claims c.replicas)
    keys : All HasKeys c.replicas

  -- The claims of a replica, apart from those of the others.
  among-Inv :
      (before after : List Replica) (s : System S)
      → ClusterInv (among before s after)
      → Inv service safety frames (cluster_claims before ++ cluster_claims after) s
  among-Inv before after s v =
      let mine = replica_of s in
      let keys : HasKeys mine = (All-append_right HasKeys before (mine ∷ after) v.keys).0 in
      let apart =
        focus _ (replica_claims mine) [] (cluster_claims before) (cluster_claims after)
          (rw (← cluster_claims-append before (mine ∷ after)) v.exclusive) in
      record {
        exclusive =
            unfocus _ (thread_claims s.threads) (queue_claims s.process.queue) []
              (cluster_claims before ++ cluster_claims after) apart;
        thread_keys = keys.0;
        queue_keys = keys.1;
      }

  Inv-among :
      (before after : List Replica) (s t : System S)
      → All HasKeys (before ++ replica_of s ∷ after)
      → Inv service safety frames (cluster_claims before ++ cluster_claims after) t
      → ClusterInv (among before t after)
  Inv-among before after s t keys v =
      let mine = replica_of t in
      record {
        exclusive = rw (cluster_claims-append before (mine ∷ after)) (
            unfocus _ (replica_claims mine) [] (cluster_claims before) (cluster_claims after) (
              focus _ (thread_claims t.threads) (queue_claims t.process.queue) []
                (cluster_claims before ++ cluster_claims after) v.exclusive));
        keys =
            All-append HasKeys before (mine ∷ after)
              (All-append_left HasKeys before (replica_of s ∷ after) keys)
              (
                (v.thread_keys, v.queue_keys),
                (All-append_right HasKeys before (replica_of s ∷ after) keys).1,
              );
      }

  ClusterStep-Inv : {c d : Cluster S} → ClusterStep c d → ClusterInv c → ClusterInv d
  ClusterStep-Inv (acts before after s t st) v =
      Inv-among before after s t v.keys
        (Step-Inv service safety frames _ st (among-Inv before after s v))

  ClusterReach-Inv : {c d : Cluster S} → ClusterReach c d → ClusterInv c → ClusterInv d
  ClusterReach-Inv here v = v
  ClusterReach-Inv (next r st) v = ClusterStep-Inv st (ClusterReach-Inv r v)

  -- Replicas as `Start` leaves them, each with its own number of workers.
  abbrev pub AreStarted : List Replica → Type 0
  AreStarted = All (λ r. (r.queue ≡ []) × ((n : ℤ) × (r.threads ≡ start_workers n)))

  started-keys : (rs : List Replica) → AreStarted rs → (cluster_claims rs ≡ []) × All HasKeys rs
  started-keys [] a = (refl, tt)
  started-keys (r ∷ rs) ((empty, (n, threads)), a) =
      let rest = started-keys rs a in
      let mine = start_workers-Inv service safety frames n in
      (rw (empty, threads, mine.0) rest.0, ((rw threads mine.1, rw empty tt), rest.1))

  started-ClusterInv : (c : Cluster S) → AreStarted c.replicas → ClusterInv c
  unfolding count_if
  started-ClusterInv c a =
      let started = started-keys c.replicas a in
      record {
        exclusive = record {
          one = λ k. rw started.0 (omega arith);
          own = tt;
          rest = rw started.0 tt;
        };
        keys = started.1;
      }

  -- A replica and those after it.
  counted_replica :
      (k : Text) (before after : List Replica) (r : Replica)
      → count_on k (replica_claims r) + count_on k (cluster_claims after)
        ≤ count_on k (cluster_claims (before ++ r ∷ after))
  counted_replica k before after r = rw (cluster_claims-append before (r ∷ after)) (
      omega (
        arith,
        count_if-append (λ (c : Claim). c.0 =ₜ k) (cluster_claims before)
            (replica_claims r ++ cluster_claims after),
        count_if-append (λ (c : Claim). c.0 =ₜ k) (replica_claims r) (cluster_claims after),
      ))

  -- A worker that rebuilds counts among the claims of its replica.
  rebuilding_counts :
      (r : Replica) (before after : List Thread) (job : RecomputeJob)
      → r.threads ≡ before ++ worker (rebuilding job) ∷ after
      → 1 ≤ count_on job.lock_key (replica_claims r)
  unfolding count_if
  rebuilding_counts r before after job threads = rw threads (
      ground (
        arith,
        counted service safety frames job.lock_key before after (worker (rebuilding job)),
        count_if-append (λ (c : Claim). c.0 =ₜ job.lock_key) (queue_claims r.queue)
            (thread_claims (before ++ worker (rebuilding job) ∷ after)),
        =ₜ_refl job.lock_key,
      ))

  -- However many replicas share the databases and the lock server, each with its own workers and its own
  -- queue, and in every order of the single steps of all their threads, with any errors of the
  -- databases, the caches and the lock server and without the expiry of a lock: two workers of
  -- different replicas that run `RecomputeReport` at one time do so for requests with different lock
  -- keys.
  pub replicas_rebuild_apart :
      (c d : Cluster S) (rs0 rs1 rs2 : List Replica) (r q : Replica)
      (before after before' after' : List Thread) (job other : RecomputeJob)
      → AreStarted c.replicas
      → ClusterReach c d
      → d.replicas ≡ rs0 ++ r ∷ (rs1 ++ q ∷ rs2)
      → r.threads ≡ before ++ worker (rebuilding job) ∷ after
      → q.threads ≡ before' ++ worker (rebuilding other) ∷ after'
      → lock_key_of job.request ≢ lock_key_of other.request
  replicas_rebuild_apart c d rs0 rs1 rs2 r q before after before' after' job other started reach
        replicas threads threads' same =
      absurd (
        omega (
          arith,
          one_only,
          counted_replica job.lock_key rs0 (rs1 ++ q ∷ rs2) r,
          counted_replica job.lock_key rs1 rs2 q,
          rebuilding_counts r before after job threads,
          second,
        ))
    where
      inv : ClusterInv d
      inv = ClusterReach-Inv reach (started-ClusterInv c started)

      keys : All HasKeys (r ∷ (rs1 ++ q ∷ rs2))
      keys = All-append_right HasKeys rs0 (r ∷ (rs1 ++ q ∷ rs2)) (rw replicas at inv.keys)

      same_key : job.lock_key ≡ other.lock_key
      same_key =
          at_keys service safety frames before after (worker (rebuilding job))
            (rw threads at keys.0.0)
          ∙ (same
              ∙ sym (
                  at_keys service safety frames before' after' (worker (rebuilding other))
                    (rw threads' at (All-append_right HasKeys rs1 (q ∷ rs2) keys.1).0.0)))

      one_only : count_on job.lock_key (cluster_claims (rs0 ++ r ∷ (rs1 ++ q ∷ rs2))) ≤ 1
      one_only = rw (← replicas) (omega (arith, inv.exclusive.one job.lock_key))

      second : 1 ≤ count_on job.lock_key (replica_claims q)
      second = rw same_key (rebuilding_counts q before' after' other threads')
