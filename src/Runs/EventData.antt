-- ===== src/Runs/EventData.antt =====
-- `_safe_event_data` of backend/src/application/services.py: the whitelist of what an event of an
-- execution may store, with the tool statuses of backend/src/application/contracts.py.
use oper_mind.Base.{
  ℕ, String, count, Bool, true, false, ◌&&◌, Option, none, some, List, [], ◌∷◌, ◌++◌, any, find,
  leb, str_eq, if◌then◌else◌,
}
use oper_mind.Runs.Records.{RunEventType, Value, text, number}

-- `DiagnosisExecutionEvent`. A truth value, a float, a list or a mapping is `other`, as a negative
-- number is: no key admits one.
pub record ExecutionEvent : Type 0 where
  pub type : RunEventType
  pub node : String
  pub occurred_at : ℕ
  pub details : List (String × Value)

abbrev pub Details : Type 0
Details = List (String × Value)

abbrev pub has_key : String → String × Value → Bool
has_key k entry = str_eq entry.0 k

-- `data.get(key)`
unfoldable pub get : String → Details → Option Value
get k d = elim (find (has_key k) d) [ none ↦ none | some (key, v) ↦ some v ]

abbrev pub passing_text : (String → Bool) → Option Value → Option String
passing_text p (some (text s)) = if p s then some s else none
passing_text p _ = none

abbrev pub passing_number : (ℕ → Bool) → Option Value → Option ℕ
passing_number p (some (number n)) = if p n then some n else none
passing_number p _ = none

-- A text that meets the test, a number that does.
unfoldable pub text_at : String → (String → Bool) → Details → Option String
text_at k p d = passing_text p (get k d)

unfoldable pub number_at : String → (ℕ → Bool) → Details → Option ℕ
number_at k p d = passing_number p (get k d)

abbrev pub one_of : List String → String → Bool
one_of l s = any (str_eq s) l

abbrev pub within : ℕ → ℕ → ℕ → Bool
within low high n = leb low n && leb n high

-- _SAFE_TOOL_TRACE_SUMMARIES
abbrev pub tool_summaries : List (String × String)
tool_summaries =
    ("running", "工具调用中")
    ∷ ("completed", "工具调用完成")
    ∷ ("failed", "工具调用失败")
    ∷ ("skipped", "工具调用已跳过")
    ∷ ("ok", "工具调用成功")
    ∷ ("attention", "工具调用需要关注")
    ∷ ("unavailable", "工具调用不可用")
    ∷ ("rejected", "工具调用已拒绝")
    ∷ ("timeout", "工具调用超时")
    ∷ ("error", "工具调用失败")
    ∷ []

abbrev pub has_status : String → String × String → Bool
has_status s entry = str_eq entry.0 s

-- The test of `normalize_tool_trace_status`
abbrev pub is_tool_status : String → Bool
is_tool_status s = any (has_status s) tool_summaries

-- `safe_tool_trace_summary`
unfoldable pub safe_tool_trace_summary : Option String → String
safe_tool_trace_summary status = elim status [
  | none ↦ "工具调用状态已更新"
  | some s ↦ elim (find (has_status s) tool_summaries) [
    | none ↦ "工具调用状态已更新"
    | some (key, summary) ↦ summary
  ]
]

abbrev pub is_tool_invoked : RunEventType → Bool
is_tool_invoked RunEventType.tool_invoked = true
is_tool_invoked _ = false

abbrev pub is_agent_done : RunEventType → Bool
is_agent_done RunEventType.agent_done = true
is_agent_done _ = false

abbrev pub roles : List String
roles = "db" ∷ "log" ∷ "server" ∷ "knowledge" ∷ []

abbrev pub decisions : List String
decisions =
    "answer" ∷ "needs_input" ∷ "load_skill" ∷ "invoke_capability" ∷ "budget_exhausted" ∷ "failed"
    ∷ []

abbrev pub outcomes : List String
outcomes =
    "answer" ∷ "answer_with_knowledge" ∷ "needs_input" ∷ "comparison" ∷ "failed"
    ∷ "budget_exhausted" ∷ "canceled" ∷ []

abbrev pub kinds : List String
kinds = "knowledge" ∷ "execution" ∷ []

abbrev pub modes : List String
modes = "mock" ∷ "target" ∷ []

-- MAX_MAIN_DECISIONS
abbrev pub max_main_decisions : ℕ
max_main_decisions = 6

abbrev pub put_text : String → Option String → Details
put_text k none = []
put_text k (some s) = (k, text s) ∷ []

abbrev pub put_number : String → Option ℕ → Details
put_number k none = []
put_number k (some n) = (k, number n) ∷ []

unfoldable pub summary_data : ExecutionEvent → Details
summary_data e =
    if is_tool_invoked e.type
    then ("summary", text (safe_tool_trace_summary (text_at "status" is_tool_status e.details)))
      ∷ []
    else put_text "summary" (text_at "summary" (λ s. within 1 280 (count s)) e.details)

-- What goes with an accepted `capability_id`.
abbrev pub capability_entries : ExecutionEvent → Option String → Details
capability_entries e none = []
capability_entries e (some id) =
    ("capability_id", text id)
      ∷ put_number "capability_version"
          (number_at "capability_version" (within 1 1000000) e.details)
    ++ put_text "capability_kind" (text_at "capability_kind" (one_of kinds) e.details)

unfoldable pub capability_data : List String → ExecutionEvent → Details
capability_data capability_ids e =
    capability_entries e (text_at "capability_id" (one_of capability_ids) e.details)

unfoldable pub steps_data : ExecutionEvent → Details
steps_data e =
    if is_agent_done e.type
    then put_number "steps" (number_at "steps" (within 1 max_main_decisions) e.details)
    else []

-- `_safe_event_data`, the entries in the order in which they are put.
unfoldable pub safe_event_data : List String → List String → ExecutionEvent → Details
safe_event_data service_ids capability_ids e =
    ("node", text e.node) ∷ summary_data e
    ++ put_text "role" (text_at "role" (one_of roles) e.details)
    ++ put_text "status" (text_at "status" is_tool_status e.details)
    ++ put_number "duration_ms" (number_at "duration_ms" (within 0 60000) e.details)
    ++ put_text "mode" (text_at "mode" (one_of modes) e.details)
    ++ put_text "service_id" (text_at "service_id" (one_of service_ids) e.details)
    ++ capability_data capability_ids e
    ++ put_text "decision" (text_at "decision" (one_of decisions) e.details)
    ++ put_text "outcome" (text_at "outcome" (one_of outcomes) e.details)
    ++ put_number "step" (number_at "step" (within 1 max_main_decisions) e.details)
    ++ steps_data e
