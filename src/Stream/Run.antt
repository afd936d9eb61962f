-- ===== src/Stream/Run.antt =====
-- `guard_run_stream` of backend/src/application/runtime_safety.py. The payloads of events,
-- diagnoses and deliveries, which the guard passes on, are parameters.
use oper_mind.Base.{
  arith, some, none, ◌∙◌, ◌≡◌, refl, ap, String, Bool, true, false, List, [], ◌∷◌, ◌++◌, map,
}
use oper_mind.Stream.Guard.{
  Pull, Source, Classified, Protocol, consume, guard_finite_stream, IsClosed, Tells, guard-IsClosed,
}

pub data RunFailureCode : Type 0 where
  diagnosis_failed main_agent_failed main_agent_model_unavailable : RunFailureCode
  main_agent_decision_invalid main_agent_capability_unavailable : RunFailureCode
  main_agent_tool_failed main_agent_input_unavailable main_agent_delivery_invalid : RunFailureCode
  main_agent_rule_unavailable main_agent_budget_exhausted : RunFailureCode

-- `safe_message`
unfoldable pub safe_message : RunFailureCode → String
safe_message RunFailureCode.diagnosis_failed = "诊断执行失败，请稍后重试"
safe_message RunFailureCode.main_agent_failed = "主 Agent 执行失败，请稍后重试"
safe_message RunFailureCode.main_agent_model_unavailable = "主 Agent 模型暂不可用，请稍后重试"
safe_message RunFailureCode.main_agent_decision_invalid = "主 Agent 决策无效，请重新描述任务"
safe_message RunFailureCode.main_agent_capability_unavailable = "所需能力当前不可用"
safe_message RunFailureCode.main_agent_tool_failed = "主 Agent 工具执行失败，请稍后重试"
safe_message RunFailureCode.main_agent_input_unavailable = "主 Agent 输入不可用，请重新发起"
safe_message RunFailureCode.main_agent_delivery_invalid = "主 Agent 交付校验失败"
safe_message RunFailureCode.main_agent_rule_unavailable = "主 Agent 规则不可用，请重新发起"
safe_message RunFailureCode.main_agent_budget_exhausted = "本次主 Agent 运行预算已用尽，请拆分后再试"

module _ (V : Type 0) (D : Type 0) (M : Type 0) where
  -- The signals of a run: an event, a diagnosis, a delivery of the main agent, a failure.
  pub data RunSignal : Type 0 where
    event : V → RunSignal
    diagnosis : D → RunSignal
    delivery : M → RunSignal
    failure : RunFailureCode → RunSignal

  -- What an executor may yield: a signal, or any other object.
  pub data RunItem : Type 0 where
    typed : RunSignal → RunItem
    unknown : RunItem

  -- RunExecutionError, or any other exception.
  pub data RunError : Type 0 where
    execution_error : RunFailureCode → RunError
    other_error : RunError

  abbrev pub is_terminal : RunSignal → Bool
  is_terminal (event v) = false
  is_terminal _ = true

  -- `_classify_run_item`
  unfoldable pub classify_run_item : RunItem → Classified RunError RunSignal
  classify_run_item (typed s) = Classified.signal s (is_terminal s)
  classify_run_item unknown = Classified.violation

  -- `_run_exception_failure`
  unfoldable pub run_exception_failure : RunFailureCode → RunError → Bool → RunSignal
  run_exception_failure default (execution_error code) false = failure code
  run_exception_failure default _ _ = failure default

  abbrev pub run_protocol : RunFailureCode → Protocol RunItem RunError RunSignal
  run_protocol default = record {
    classify = classify_run_item;
    protocol_failure = failure default;
    exception_failure = run_exception_failure default;
  }

  -- `guard_run_stream`
  unfoldable pub guard_run_stream : RunFailureCode → Source RunItem RunError → List RunSignal
  guard_run_stream default o = guard_finite_stream (run_protocol default) o

  run-Tells : (default : RunFailureCode) → Tells (run_protocol default) is_terminal
  unfolding classify_run_item run_exception_failure
  run-Tells default = record { of_item = of_item; of_failure = refl; of_exception = of_exception }
    where
      of_item :
          (i : RunItem) (s : RunSignal) (b : Bool)
          → classify_run_item i ≡ Classified.signal s b
          → is_terminal s ≡ b
      of_item (typed r) s b h = ground arith
      of_item unknown s b h = cc

      of_exception :
          (e : RunError) (b : Bool) → is_terminal (run_exception_failure default e b) ≡ true
      of_exception (execution_error code) true = refl
      of_exception (execution_error code) false = refl
      of_exception other_error b = refl

  -- Whatever an executor yields or raises, the guarded stream of a run is any number of events and
  -- then exactly one terminal signal, a diagnosis, a delivery or a failure.
  pub guard_run_stream-IsClosed :
      (default : RunFailureCode) (o : Source RunItem RunError)
      → IsClosed (run_protocol default) is_terminal (guard_run_stream default o)
  unfolding guard_run_stream
  guard_run_stream-IsClosed default o =
      guard-IsClosed (run_protocol default) is_terminal (run-Tells default) o

  abbrev pub pulls_of : List V → List (Pull RunItem RunError)
  pulls_of l = map (λ v. Pull.item (typed (event v))) l

  -- What a terminal signal becomes once it is known what follows it.
  abbrev pub released : RunFailureCode → RunSignal → List (Pull RunItem RunError) → RunSignal
  released default s [] = s
  released default s (x ∷ rest) = failure default

  released-consume :
      (default : RunFailureCode) (s : RunSignal) (rest : List (Pull RunItem RunError))
      → consume (run_protocol default) (some s) rest ≡ released default s rest ∷ []
  unfolding consume run_exception_failure
  released-consume default s [] = refl
  released-consume default s (Pull.item i ∷ rest) = refl
  released-consume default s (Pull.raised (execution_error code) ∷ rest) = refl
  released-consume default s (Pull.raised other_error ∷ rest) = refl

  kept-consume :
      (default : RunFailureCode) (s : RunSignal) (rest : List (Pull RunItem RunError))
      → is_terminal s ≡ true
      → consume (run_protocol default) none (Pull.item (typed s) ∷ rest)
        ≡ consume (run_protocol default) (some s) rest
  unfolding consume classify_run_item
  kept-consume default (event v) rest h = cc
  kept-consume default (diagnosis d) rest h = refl
  kept-consume default (delivery m) rest h = refl
  kept-consume default (failure code) rest h = refl

  -- Events before a terminal signal are passed on in order; the terminal signal itself is delivered
  -- exactly if the executor stops right after it, and anything that follows, an item or an
  -- exception, replaces it by the default failure.
  pub terminal_is_released_last :
      (default : RunFailureCode) (events : List V) (s : RunSignal)
      (rest : List (Pull RunItem RunError))
      → is_terminal s ≡ true
      → guard_run_stream default (Source.opened (pulls_of events ++ Pull.item (typed s) ∷ rest))
        ≡ map event events ++ released default s rest ∷ []
  unfolding guard_run_stream guard_finite_stream consume classify_run_item
  terminal_is_released_last default [] s rest h =
      kept-consume default s rest h ∙ released-consume default s rest
  terminal_is_released_last default (v ∷ events) s rest h =
      ap (λ l. event v ∷ l) (terminal_is_released_last default events s rest h)
