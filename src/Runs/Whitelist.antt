-- ===== src/Runs/Whitelist.antt =====
-- What an event of an execution may store (`_safe_event_data` of
-- backend/src/application/services.py).
use mathlib.Core.Option.{some-injective}
use oper_mind.Base.{
  found-All, ℕ, String, ◌≡◌, refl, sym, ◌∙◌, ap, Bool, true, false, ◌&&◌, Option, none, some, List,
  [], ◌∷◌, any, find, count, str_eq, All, All-append, Bool-cases, Option-cases, inl, inr,
  if◌then◌else◌,
}
use oper_mind.Runs.Records.{Value, text, number, other}
use oper_mind.Runs.EventData.{
  ExecutionEvent, Details, get, passing_text, passing_number, capability_entries, text_at,
  number_at, one_of, within, tool_summaries, has_status, is_tool_status, safe_tool_trace_summary,
  is_tool_invoked, is_agent_done, roles, decisions, outcomes, kinds, modes, max_main_decisions,
  put_text, put_number, summary_data, capability_data, steps_data, safe_event_data,
}

abbrev pub is_text : (String → Bool) → Value → Bool
is_text p (text s) = p s
is_text p _ = false

abbrev pub is_number : (ℕ → Bool) → Value → Bool
is_number p (number n) = p n
is_number p _ = false

-- What is there has passed its test.
text_passes :
    (p : String → Bool) (o : Option Value) (s : String) → passing_text p o ≡ some s → p s ≡ true
text_passes p (some (text t)) s e = elim (Bool-cases (p t)) [
  | inl passes ↦
      ap p (sym (some-injective t s (sym (ap (λ b. if b then some t else none) passes) ∙ e)))
      ∙ passes
  | inr fails ↦ absurd (cc (ap (λ b. if b then some t else none) fails, e))
]
text_passes p (some (number n)) s e = absurd (cc (e))
text_passes p (some other) s e = absurd (cc (e))
text_passes p none s e = absurd (cc (e))

number_passes : (p : ℕ → Bool) (o : Option Value) (n : ℕ) → passing_number p o ≡ some n → p n ≡ true
number_passes p (some (number t)) s e = elim (Bool-cases (p t)) [
  | inl passes ↦
      ap p (sym (some-injective t s (sym (ap (λ b. if b then some t else none) passes) ∙ e)))
      ∙ passes
  | inr fails ↦ absurd (cc (ap (λ b. if b then some t else none) fails, e))
]
number_passes p (some (text n)) s e = absurd (cc (e))
number_passes p (some other) s e = absurd (cc (e))
number_passes p none s e = absurd (cc (e))

module _ (service_ids capability_ids : List String) where
  -- The keys, each with the values that are public.
  unfoldable pub public_values : List (String × (Value → Bool))
  public_values =
      ("node", is_text (λ s. true))
      ∷ ("summary", is_text (λ s. within 1 280 (count s)))
      ∷ ("role", is_text (one_of roles))
      ∷ ("status", is_text is_tool_status)
      ∷ ("duration_ms", is_number (within 0 60000))
      ∷ ("mode", is_text (one_of modes))
      ∷ ("service_id", is_text (one_of service_ids))
      ∷ ("capability_id", is_text (one_of capability_ids))
      ∷ ("capability_version", is_number (within 1 1000000))
      ∷ ("capability_kind", is_text (one_of kinds))
      ∷ ("decision", is_text (one_of decisions))
      ∷ ("outcome", is_text (one_of outcomes))
      ∷ ("step", is_number (within 1 max_main_decisions))
      ∷ ("steps", is_number (within 1 max_main_decisions))
      ∷ []

  abbrev pub IsPublic : String × Value → Type 0
  IsPublic entry = any (λ row. str_eq row.0 entry.0 && row.1 entry.1) public_values ≡ true

  put_text-IsPublic :
      (k : String) (o : Option String)
      → ((s : String) → o ≡ some s → IsPublic (k, text s))
      → All IsPublic (put_text k o)
  put_text-IsPublic k none h = tt
  put_text-IsPublic k (some s) h = (h s refl, tt)

  put_number-IsPublic :
      (k : String) (o : Option ℕ)
      → ((n : ℕ) → o ≡ some n → IsPublic (k, number n))
      → All IsPublic (put_number k o)
  put_number-IsPublic k none h = tt
  put_number-IsPublic k (some n) h = (h n refl, tt)

  text-IsPublic :
      (k : String) (p : String → Bool) (d : Details)
      → ((s : String) → p s ≡ true → IsPublic (k, text s))
      → All IsPublic (put_text k (text_at k p d))
  unfolding text_at
  text-IsPublic k p d h =
      put_text-IsPublic k (text_at k p d) λ s e. h s (text_passes p (get k d) s e)

  number-IsPublic :
      (k : String) (p : ℕ → Bool) (d : Details)
      → ((n : ℕ) → p n ≡ true → IsPublic (k, number n))
      → All IsPublic (put_number k (number_at k p d))
  unfolding number_at
  number-IsPublic k p d h =
      put_number-IsPublic k (number_at k p d) λ n e. h n (number_passes p (get k d) n e)

  trace_is_short :
      (status : Option String) → within 1 280 (count (safe_tool_trace_summary status)) ≡ true
  unfolding safe_tool_trace_summary
  trace_is_short none = refl
  trace_is_short (some s) = elim (Option-cases (find (has_status s) tool_summaries)) [
    | inl missing ↦ rw (missing, safe_tool_trace_summary) refl
    | inr ((key, summary), there) ↦
        rw (there, safe_tool_trace_summary)
          (found-All (λ e. within 1 280 (count e.1) ≡ true) (key, summary) (has_status s)
            tool_summaries
            (refl, (refl, (refl, (refl, (refl, (refl, (refl, (refl, (refl, (refl, tt))))))))))
            there)
  ]

  summary-IsPublic : (e : ExecutionEvent) → All IsPublic (summary_data e)
  unfolding summary_data public_values
  summary-IsPublic e = elim (Bool-cases (is_tool_invoked e.type)) [
    | inl tool ↦ rw tool (rw (trace_is_short (text_at "status" is_tool_status e.details)) refl, tt)
    | inr none_called ↦
        rw none_called
          (text-IsPublic "summary" (λ s. within 1 280 (count s)) e.details λ s h. rw h refl)
  ]

  entries-IsPublic :
      (e : ExecutionEvent) (o : Option String)
      → ((s : String) → o ≡ some s → one_of capability_ids s ≡ true)
      → All IsPublic (capability_entries e o)
  unfolding public_values
  entries-IsPublic e none h = tt
  entries-IsPublic e (some id) h = (
    rw (h id refl) refl,
    All-append IsPublic _ _
        (number-IsPublic "capability_version" (within 1 1000000) e.details λ n h. rw h refl)
        (text-IsPublic "capability_kind" (one_of kinds) e.details λ s h. rw h refl),
  )

  capability-IsPublic : (e : ExecutionEvent) → All IsPublic (capability_data capability_ids e)
  unfolding capability_data text_at
  capability-IsPublic e =
      entries-IsPublic e (text_at "capability_id" (one_of capability_ids) e.details)
        λ s there. text_passes (one_of capability_ids) (get "capability_id" e.details) s there

  steps-IsPublic : (e : ExecutionEvent) → All IsPublic (steps_data e)
  unfolding steps_data public_values
  steps-IsPublic e = elim (Bool-cases (is_agent_done e.type)) [
    | inl done ↦
        rw done (number-IsPublic "steps" (within 1 max_main_decisions) e.details λ n h. rw h refl)
    | inr going ↦ rw going tt
  ]

  -- Every entry that an event of an execution stores has one of the public keys with a value that is
  -- public for it: a text of a closed set or of the registered identifiers, a number in its range, or
  -- a summary of at most 280 code points. Only the name of the node is stored as it is given.
  pub safe_event_data-IsPublic :
      (e : ExecutionEvent) → All IsPublic (safe_event_data service_ids capability_ids e)
  unfolding safe_event_data public_values
  safe_event_data-IsPublic e =
      let d = e.details in
      let a₀ = summary-IsPublic e in
      let a₁ =
        All-append IsPublic _ _ a₀ (text-IsPublic "role" (one_of roles) d λ s h. rw h refl) in
      let a₂ =
        All-append IsPublic _ _ a₁ (text-IsPublic "status" is_tool_status d λ s h. rw h refl) in
      let a₃ =
        All-append IsPublic _ _ a₂
          (number-IsPublic "duration_ms" (within 0 60000) d λ n h. rw h refl) in
      let a₄ =
        All-append IsPublic _ _ a₃ (text-IsPublic "mode" (one_of modes) d λ s h. rw h refl) in
      let a₅ =
        All-append IsPublic _ _ a₄
          (text-IsPublic "service_id" (one_of service_ids) d λ s h. rw h refl) in
      let a₆ = All-append IsPublic _ _ a₅ (capability-IsPublic e) in
      let a₇ =
        All-append IsPublic _ _ a₆
          (text-IsPublic "decision" (one_of decisions) d λ s h. rw h refl) in
      let a₈ =
        All-append IsPublic _ _ a₇ (text-IsPublic "outcome" (one_of outcomes) d λ s h. rw h refl) in
      let a₉ =
        All-append IsPublic _ _ a₈
          (number-IsPublic "step" (within 1 max_main_decisions) d λ n h. rw h refl) in
      (refl, All-append IsPublic _ _ a₉ (steps-IsPublic e))
