-- ===== src/Cluster/Progress/Runs.antt =====
-- Runs one after the other.
use cluster_api_provider_clo.ClientCache.Reachable.{IsReachable}
use cluster_api_provider_clo.Cluster.Cooperation.{Cooperates}
use cluster_api_provider_clo.Base.{ℕ, ◌≡◌, true, suc, ◌≤◌, zero, arith}
use cluster_api_provider_clo.Api.{TenantCluster, is_zero}
use cluster_api_provider_clo.World.{World, Trace}
use cluster_api_provider_clo.Cluster.Progress.{Stage, run, runs}
use cluster_api_provider_clo.Cluster.Progress.Stages.{Stage-run}

module _ (W : World) (coop : Cooperates W) where
  runs-Stage : (n : ℕ) (x : TenantCluster × Trace) → Stage W 3 x.0 → Stage W 3 (runs W n x).0
  runs-Stage zero x s = s
  runs-Stage (suc n) x s = runs-Stage n (run W x) (Stage-run W coop 3 x s)

-- In a world that grants what is asked for, and as long as nobody else changes the object, a
-- cluster that is not being deleted and whose client can be had is ready after three runs, and
-- after any further ones.
pub runs-ready :
    (W : World) (c : TenantCluster) (t : Trace) (n : ℕ)
    → Cooperates W
    → is_zero c.metadata.deletion_timestamp ≡ true
    → IsReachable W c
    → 3 ≤ n
    → (runs W n (c, t)).0.status.ready ≡ true
runs-ready W c t zero coop alive reachable h = absurd (omega arith)
runs-ready W c t (suc zero) coop alive reachable h = absurd (omega arith)
runs-ready W c t (suc (suc zero)) coop alive reachable h = absurd (omega arith)
runs-ready W c t (suc (suc (suc n))) coop alive reachable h =
    (runs-Stage W coop n _
        (Stage-run W coop 2 _ (Stage-run W coop 1 _ (Stage-run W coop 0 (c, t) start)))).ready
      (omega arith)
  where
    start : Stage W 0 c
    start = record {
      alive = alive;
      reachable = reachable;
      finalized = λ k. absurd (omega arith);
      hosted = λ k. absurd (omega arith);
      ready = λ k. absurd (omega arith);
    }
