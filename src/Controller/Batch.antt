-- ===== src/Controller/Batch.antt =====
-- The batch jobs of Kubernetes, with the fields that the job controllers set and read, and the
-- answers of the API server that creating one takes.
use kube_stager.Base.{
  ℕ, ◌%◌, ◌^◌, not, ◌&&◌, bytes, text_eq, if◌then◌else◌, pos, ◌+ℤ◌, ◌*ℤ◌, wrap64, Option, none,
  some, List, [], ◌∷◌, ◌++◌, Text, ℤ, Assoc, All, ◌≡◌, ◌≢◌, refl, arith,
}
use kube_stager.Api.{Time, PodSpec, StagingSite, ServiceConfig}
use kube_stager.Controller.Errors.{Result}

pub data ConditionType : Type 0 where
  job_complete job_failed other_condition : ConditionType

pub data ConditionStatus : Type 0 where
  condition_true condition_false condition_unknown : ConditionStatus

pub record JobCondition : Type 0 where
  pub kind : ConditionType
  pub status : ConditionStatus
  pub last_transition_time : Time

pub record BatchJob : Type 0 where
  pub name : Text
  pub namespace : Text
  pub labels : Assoc Text
  pub controller : Text
  pub active_deadline_seconds : ℤ
  pub backoff_limit : ℤ
  pub ttl_seconds_after_finished : ℤ
  pub pod_spec : PodSpec
  pub creation_timestamp : Time
  pub conditions : List JobCondition

-- The part of ProjectConfig for one kind of job.
pub record JobConfig : Type 0 where
  pub backoff_limit : ℤ
  pub deadline_seconds : ℤ
  pub ttl_seconds : ℤ

-- What a condition says of its job.
pub data Verdict : Type 0 where
  finished : Time → Verdict
  broken : Time → Verdict

abbrev pub verdict_of : JobCondition → Option Verdict
verdict_of v = elim v.kind [
  | job_complete ↦ elim v.status [
    | condition_true ↦ some (finished v.last_transition_time)
    | _ ↦ none
  ]
  | job_failed ↦ elim v.status [ condition_true ↦ some (broken v.last_transition_time) | _ ↦ none ]
  | other_condition ↦ none
]

abbrev first_of_two : Option Verdict → Option Verdict → Option Verdict
first_of_two none later = later
first_of_two (some v) later = some v

-- The loop over the conditions: the first that is true and is about completion or failure.
unfoldable pub verdict : List JobCondition → Option Verdict
verdict [] = none
verdict (v ∷ conditions) = first_of_two (verdict_of v) (verdict conditions)

-- The bound on consecutive misses of a batch job (dbinitjob_controller.go).
abbrev pub db_init_max_job_failed_load_limit : ℕ
db_init_max_job_failed_load_limit = 5

-- A uint32 wraps around.
abbrev pub u32 : ℕ → ℕ
u32 n = n % 2 ^ 32

-- time.Now().Add(time.Duration(seconds) * time.Second)
abbrev pub deadline_after : Time → ℤ → Time
deadline_after now seconds = now +ℤ wrap64 (wrap64 seconds *ℤ pos 1000000000)

-- A pod of a batch job is restarted on failure or never.
unfoldable pub fix_restart_policy : PodSpec → PodSpec
fix_restart_policy spec =
    if not (text_eq spec.restart_policy (bytes "OnFailure"))
      && not (text_eq spec.restart_policy (bytes "Never"))
    then record spec { restart_policy = bytes "OnFailure" }
    else spec

-- The answers to the calls by which a batch job is built and created.
pub record BatchApi : Type 0 where
  pub get_site : Text → Result StagingSite
  pub get_service_config : Text → Result ServiceConfig
  -- LoadConfigs and ReplaceTemplateVariablesInPodSpec
  pub render : StagingSite → ServiceConfig → PodSpec → Result PodSpec
  pub set_controller_reference : Result (Unit {0})
  pub create : BatchJob → Result (Unit {0})

-- A condition that decides nothing.
abbrev pub Undecided : JobCondition → Type 0
Undecided v = verdict_of v ≡ none

-- The loop finds the first condition that decides, and nothing where none does.
pub verdict-append :
    (pre : List JobCondition) (v : JobCondition) (post : List JobCondition)
    → All Undecided pre
    → verdict_of v ≢ none
    → verdict (pre ++ (v ∷ post)) ≡ verdict_of v
unfolding verdict
verdict-append [] v post h d = ground arith
verdict-append (c ∷ pre) v post h d = ground (arith, verdict-append pre v post h.1 d, h.0)

pub verdict-Undecided :
    (conditions : List JobCondition) → All Undecided conditions → verdict conditions ≡ none
unfolding verdict
verdict-Undecided [] h = refl
verdict-Undecided (c ∷ conditions) h = ground (arith, verdict-Undecided conditions h.1, h.0)
