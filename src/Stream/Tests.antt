-- ===== src/Stream/Tests.antt =====
-- A guarded run on a small example.
use oper_mind.Base.{All, ◌≡◌, refl, String, List, [], ◌∷◌}
use oper_mind.Stream.Guard.{Pull, Source, IsClosed}
use oper_mind.Stream.Runtime.{
  FailureCodeId, RuntimeItem, RuntimeError, runtime_protocol, ends_runtime, HasSafeMessage,
  guard_runtime_stream, guard_runtime_stream_is_safe,
}
use oper_mind.Stream.Run.{
  RunFailureCode, RunSignal, RunItem, RunError, is_terminal, run_protocol, guard_run_stream,
  guard_run_stream-IsClosed, terminal_is_released_last,
}

abbrev Signal : Type 0
Signal = RunSignal String String String

abbrev delivered : Signal
delivered = RunSignal.delivery "answer"

abbrev late_event : List (Pull (RunItem String String String) (RunError String String String))
late_event = Pull.item (RunItem.typed (RunSignal.event "late")) ∷ []

abbrev executor : Source (RunItem String String String) (RunError String String String)
executor = Source.opened (
    Pull.item (RunItem.typed (RunSignal.event "started"))
    ∷ Pull.item (RunItem.typed delivered)
    ∷ late_event)

guard_run_stream-IsClosed_example :
    IsClosed
      (run_protocol String String String RunFailureCode.main_agent_failed)
      (is_terminal String String String)
      (guard_run_stream String String String RunFailureCode.main_agent_failed executor)
guard_run_stream-IsClosed_example =
    guard_run_stream-IsClosed String String String RunFailureCode.main_agent_failed executor

terminal_is_released_last_example :
    guard_run_stream String String String RunFailureCode.main_agent_failed executor
    ≡ RunSignal.event "started" ∷ RunSignal.failure RunFailureCode.main_agent_failed ∷ []
terminal_is_released_last_example =
    terminal_is_released_last String String String RunFailureCode.main_agent_failed ("started" ∷ [])
      delivered late_event refl

abbrev leaking : Source (RuntimeItem String String) (RuntimeError String String)
leaking = Source.opened (
    Pull.item (RuntimeItem.execution_event "started")
    ∷ Pull.item (RuntimeItem.failure_signal FailureCodeId.tool_timeout "password=1")
    ∷ [])

guard_runtime_stream_is_safe_example :
    IsClosed
      (runtime_protocol String String)
      (ends_runtime String String)
      (guard_runtime_stream String String leaking)
    × All (HasSafeMessage String String) (guard_runtime_stream String String leaking)
guard_runtime_stream_is_safe_example = guard_runtime_stream_is_safe String String leaking
