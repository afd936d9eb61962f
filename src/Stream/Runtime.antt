-- ===== src/Stream/Runtime.antt =====
-- `guard_runtime_stream` of backend/src/application/runtime_safety.py, for the diagnosis runtime.
-- The payloads of events and results, which the guard passes on, are parameters.
use mathlib.Core.Path.{subst}
use oper_mind.Base.{◌≡◌, refl, String, Bool, true, false, if◌then◌else◌, List, All, arith}
use oper_mind.Stream.Guard.{
  Source, Classified, Protocol, guard_finite_stream, IsClosed, Tells, guard-IsClosed, Makes,
  guard-All,
}

pub data FailureCodeId : Type 0 where
  validation_invalid_request runtime_unexpected_exception : FailureCodeId
  runtime_unsupported_capability model_execution_failed tool_rejected tool_timeout : FailureCodeId
  policy_denied approval_required budget_exceeded cancel_requested : FailureCodeId
  recovery_required persistence_conflict internal_invariant_violation : FailureCodeId

-- _SAFE_FAILURE_MESSAGES
unfoldable pub safe_failure_message : FailureCodeId → String
safe_failure_message FailureCodeId.validation_invalid_request = "诊断请求无效"
safe_failure_message FailureCodeId.runtime_unexpected_exception = "诊断运行发生异常"
safe_failure_message FailureCodeId.runtime_unsupported_capability = "诊断运行能力不受支持"
safe_failure_message FailureCodeId.model_execution_failed = "诊断执行失败，请稍后重试"
safe_failure_message FailureCodeId.tool_rejected = "诊断工具调用被拒绝"
safe_failure_message FailureCodeId.tool_timeout = "诊断工具等待超时"
safe_failure_message FailureCodeId.policy_denied = "诊断请求未通过策略检查"
safe_failure_message FailureCodeId.approval_required = "诊断操作需要人工审批"
safe_failure_message FailureCodeId.budget_exceeded = "诊断运行预算已用尽"
safe_failure_message FailureCodeId.cancel_requested = "诊断执行已取消"
safe_failure_message FailureCodeId.recovery_required = "诊断运行需要人工恢复"
safe_failure_message FailureCodeId.persistence_conflict = "诊断状态发生冲突"
safe_failure_message FailureCodeId.internal_invariant_violation = "诊断运行输出协议异常"

module _ (V : Type 0) (D : Type 0) where
  pub data RuntimeSignal : Type 0 where
    runtime_event : V → RuntimeSignal
    runtime_result : D → RuntimeSignal
    runtime_failure : FailureCodeId → (message : String) → RuntimeSignal

  -- What an executor may yield: DiagnosisExecutionEvent, DiagnosisExecutionResult,
  -- RuntimeFailureSignal with a message of its own, or any other object.
  pub data RuntimeItem : Type 0 where
    execution_event : V → RuntimeItem
    execution_result : D → RuntimeItem
    failure_signal : FailureCodeId → (message : String) → RuntimeItem
    unknown_item : RuntimeItem

  -- DiagnosisExecutionError, or any other exception.
  pub data RuntimeError : Type 0 where
    diagnosis_error unexpected_error : RuntimeError

  -- `_failure`
  abbrev pub safe_failure : FailureCodeId → RuntimeSignal
  safe_failure code = runtime_failure code (safe_failure_message code)

  -- `_classify_runtime_item`
  unfoldable pub classify_runtime_item : RuntimeItem → Classified RuntimeError RuntimeSignal
  classify_runtime_item (execution_event v) = Classified.signal (runtime_event v) false
  classify_runtime_item (execution_result d) = Classified.signal (runtime_result d) true
  classify_runtime_item (failure_signal code message) = Classified.signal (safe_failure code) true
  classify_runtime_item unknown_item = Classified.violation

  -- `_runtime_exception_failure`
  unfoldable pub runtime_exception_failure : RuntimeError → Bool → RuntimeSignal
  runtime_exception_failure diagnosis_error after_terminal = safe_failure (
      if after_terminal
      then FailureCodeId.internal_invariant_violation
      else FailureCodeId.model_execution_failed)
  runtime_exception_failure unexpected_error after_terminal =
      safe_failure FailureCodeId.runtime_unexpected_exception

  abbrev pub runtime_protocol : Protocol RuntimeItem RuntimeError RuntimeSignal
  runtime_protocol = record {
    classify = classify_runtime_item;
    protocol_failure = safe_failure FailureCodeId.internal_invariant_violation;
    exception_failure = runtime_exception_failure;
  }

  -- `guard_runtime_stream`
  unfoldable pub guard_runtime_stream : Source RuntimeItem RuntimeError → List RuntimeSignal
  guard_runtime_stream o = guard_finite_stream runtime_protocol o

  abbrev pub ends_runtime : RuntimeSignal → Bool
  ends_runtime (runtime_event v) = false
  ends_runtime _ = true

  -- A failure carries the fixed text of its code.
  abbrev pub HasSafeMessage : RuntimeSignal → Type 0
  HasSafeMessage (runtime_failure code message) = message ≡ safe_failure_message code
  HasSafeMessage _ = Unit

  runtime-Tells : Tells runtime_protocol ends_runtime
  unfolding classify_runtime_item runtime_exception_failure
  runtime-Tells = record { of_item = of_item; of_failure = refl; of_exception = of_exception }
    where
      of_item :
          (i : RuntimeItem) (s : RuntimeSignal) (b : Bool)
          → classify_runtime_item i ≡ Classified.signal s b
          → ends_runtime s ≡ b
      of_item i s b h = ground arith

      of_exception :
          (e : RuntimeError) (b : Bool) → ends_runtime (runtime_exception_failure e b) ≡ true
      of_exception diagnosis_error b = refl
      of_exception unexpected_error b = refl

  runtime-Makes : Makes runtime_protocol HasSafeMessage
  unfolding classify_runtime_item runtime_exception_failure
  runtime-Makes = record { of_item = of_item; of_failure = refl; of_exception = of_exception }
    where
      read : Classified RuntimeError RuntimeSignal → Type 0
      read (Classified.signal s b) = HasSafeMessage s
      read _ = Unit

      each : (i : RuntimeItem) → read (classify_runtime_item i)
      each (execution_event v) = tt
      each (execution_result d) = tt
      each (failure_signal code message) = refl
      each unknown_item = tt

      of_item :
          (i : RuntimeItem) (s : RuntimeSignal) (b : Bool)
          → classify_runtime_item i ≡ Classified.signal s b
          → HasSafeMessage s
      of_item i s b h = subst read h (each i)

      of_exception : (e : RuntimeError) (b : Bool) → HasSafeMessage (runtime_exception_failure e b)
      of_exception diagnosis_error b = refl
      of_exception unexpected_error b = refl

  -- Whatever the diagnosis runtime yields or raises, and whatever text its own failures carry, the
  -- guarded stream is any number of events and then exactly one terminal signal, and every failure
  -- in it carries the fixed text of its code.
  pub guard_runtime_stream_is_safe :
      (o : Source RuntimeItem RuntimeError)
      → IsClosed runtime_protocol ends_runtime (guard_runtime_stream o)
        × All HasSafeMessage (guard_runtime_stream o)
  unfolding guard_runtime_stream
  guard_runtime_stream_is_safe o = (
    guard-IsClosed runtime_protocol ends_runtime runtime-Tells o,
    guard-All runtime_protocol HasSafeMessage runtime-Makes o,
  )
