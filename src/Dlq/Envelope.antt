-- ===== src/Dlq/Envelope.antt =====
-- internal/domain/dlq.go: the record of a dead job.
use queue_ctl.Prelude.{String, ◌≡◌, ◌≢◌, Option, none, some, arith, eq_iff, ◌==◌}
use queue_ctl.Prelude.Int.{pos, eqb_ℤ_iff}
use queue_ctl.Domain.Errors.{Result, ok, msg, refuse, ◌>>◌}
use queue_ctl.Domain.Job.{Job, Time}
use queue_ctl.Domain.ExecutionLog.{is_zero}
use queue_ctl.Store.{Env, World, Exec, pure, raise, now, ◌>>=◌}

-- DLQEnvelope
pub record Envelope : Type 0 where
  pub job_id : String
  pub original_queue : String
  pub payload : String
  pub failed_at : Time
  pub error_message : String

-- Validate
unfoldable pub validate : Envelope → Result (Unit {0})
validate e = do
  refuse (e.job_id == "") "invalid DLQ envelope: missing job ID"
  refuse (e.original_queue == "") "invalid DLQ envelope: missing original queue name"
  refuse (is_zero e.failed_at) "invalid DLQ envelope: missing failed timestamp"

module _ (env : Env) where
  -- NewDLQEnvelope, where `none` is a nil pointer
  unfoldable pub new_envelope : Option Job → String → Exec Envelope
  unfolding now
  new_envelope none text = raise (msg "cannot create DLQ envelope from nil job")
  new_envelope (some job) text = do
    t ← now env
    pure (record {
      job_id = job.id;
      original_queue = job.queue;
      payload = job.payload;
      failed_at = t;
      error_message = text;
    })

  new_envelope-valid :
      (job : Job) (text : String) (w : World) {e : Envelope}
      → job.id ≢ ""
      → job.queue ≢ ""
      → env.clock w.reads ≢ pos 0
      → (new_envelope (some job) text w).0 ≡ ok e
      → validate e ≡ ok tt
  unfolding new_envelope validate
  new_envelope-valid job text w {e} named queued t h =
      ground (arith, eq_iff job.id "", eq_iff job.queue "", eqb_ℤ_iff (env.clock w.reads) (pos 0))
