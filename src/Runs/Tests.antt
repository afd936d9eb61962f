-- ===== src/Runs/Tests.antt =====
-- The services of backend/src/application/services.py on concrete requests: a conversation, a run of
-- the main agent that is claimed, records an event and is cancelled, and what comes too late.
use oper_mind.Base.{
  true, ◌∷◌, false, some, [], ◌≡◌, refl, find, update_where, count_where, settle, in_transaction,
  ok, err, length, All, count, ◌≤◌, has_char,
}
use oper_mind.Runs.Records.{Conversation, text, number, SessionStatus, Run, is_terminal}
use oper_mind.Runs.Inputs.{normalize_material_text, build_main_input_snapshot, material_snapshot}
use oper_mind.Runs.Store.{
  get_delivery, key_reused, Db, empty_db, add_session, get_session, touch_updated_at, add_message,
  get_message, add_run, get_run, advance, transition_status, reserve_event_sequence,
  reserve_running_event_sequence, add_event, add_input, get_input, add_key, get_key_by_scope,
}
use oper_mind.Runs.Sessions.{
  new_session, create_session, archive_session, update_session, restore_command,
}
use oper_mind.Runs.Lifecycle.{
  append_event, add_reserved, append_execution_event, touch_session, finish_run, cancel_run,
}
use oper_mind.Runs.Claim.{claimed, claim_run}
use oper_mind.Runs.Context.{
  select_main_context, exchange, messages_of_run, gather, latest_runs, select, sort, insert, keep,
  reverse_onto,
}
use oper_mind.Runs.Accept.{
  accept_in_transaction, accept_new, accepted_input, insert_run, target_service,
}
use oper_mind.Runs.View.{view}
use oper_mind.Runs.Journal.{journal, Sound}
use oper_mind.Runs.Schedule.{
  perform, perform_all, AllSound, perform_all-AllSound, empty-Sound, schedule-Sound,
}
use oper_mind.Runs.Execute.{arrive, execute_run}
use oper_mind.Runs.Steps.{HasEnded}
use oper_mind.Runs.ContextBounds.{codepoints, select_main_context-Fits}
use oper_mind.Runs.EventData.{
  safe_event_data, text_at, number_at, get, summary_data, capability_data, steps_data,
  safe_tool_trace_summary,
}
use oper_mind.Runs.Whitelist.{IsPublic, safe_event_data-IsPublic}
use oper_mind.Runs.RoundTrip.{archive_then_restore}
use oper_mind.Runs.Replay.{accept_is_idempotent}
use oper_mind.Runs.Liveness.{execute_run_ends_it}
use oper_mind.Runs.Facts.{normalize_is_idempotent}
use oper_mind.Runs.Refinement.{
  Trace, unborn, journal_after, schedule_is_Trace, ended_keeps_progress, ended_keeps_journal,
}
use oper_mind.Runs.Samples.{
  text_of_command, other_command, tool_event, rules, ports, ids, request, up_to_accept, story,
  too_late, after_story, final, setting, accepted, queued_run, with_session, other_ids,
  conversation, answered_db,
}

story_ends : (journal (view 7 after_story)).progress ≡ some final
unfolding perform_all perform get_run find update_where count_where settle in_transaction
    create_session new_session add_session get_session accept_in_transaction target_service
    get_key_by_scope accept_new accepted_input build_main_input_snapshot material_snapshot
    insert_run add_message add_run add_input add_key add_event touch_session touch_updated_at
    claim_run get_message get_input claimed transition_status advance append_event
    reserve_event_sequence append_execution_event reserve_running_event_sequence add_reserved
    cancel_run finish_run select_main_context gather latest_runs select sort insert keep
    reverse_onto
story_ends = refl

story-AllSound : AllSound ports after_story
story-AllSound = perform_all-AllSound ports story empty_db empty-Sound

schedule-Sound_example : Sound (view 7 after_story)
schedule-Sound_example = schedule-Sound ports story 7

schedule_is_Trace_example : Trace false unborn (journal_after ports story 7 empty_db)
schedule_is_Trace_example = schedule_is_Trace ports story 7

ended_keeps_progress_example : (journal_after ports too_late 7 after_story).progress ≡ some final
unfolding is_terminal
ended_keeps_progress_example =
    ended_keeps_progress ports too_late after_story 7 final story-AllSound story_ends refl

ended_keeps_journal_example :
    journal_after ports too_late 7 after_story ≡ journal (view 7 after_story)
unfolding is_terminal
ended_keeps_journal_example =
    ended_keeps_journal ports too_late after_story 7 final story-AllSound refl story_ends refl

execute_run_ends_it_example :
    (r : Run) × ((execute_run ports setting 7 (accepted, 0)).0 ≡ ok r)
    × HasEnded 7 (execute_run ports setting 7 (accepted, 0)).1.0
unfolding arrive perform_all perform get_run find update_where count_where settle in_transaction
    create_session new_session add_session get_session accept_in_transaction target_service
    get_key_by_scope accept_new accepted_input build_main_input_snapshot material_snapshot
    insert_run add_message add_run add_input add_key add_event touch_session touch_updated_at
    append_event reserve_event_sequence select_main_context gather latest_runs select sort insert
    keep reverse_onto
execute_run_ends_it_example =
    execute_run_ends_it ports setting 7 (accepted, 0) queued_run
      (perform_all-AllSound ports [] accepted
        (perform_all-AllSound ports up_to_accept empty_db empty-Sound))
      refl refl

normalize_is_idempotent_example :
    (has_char 13 (normalize_material_text "a\r\nb\rc") ≡ false)
    × (normalize_material_text (normalize_material_text "a\r\nb\rc")
        ≡ normalize_material_text "a\r\nb\rc")
normalize_is_idempotent_example = normalize_is_idempotent "a\r\nb\rc"

accept_is_idempotent_example :
    (accept_in_transaction rules other_ids 50 request accepted
      ≡ ok (record { run = queued_run; replayed = true }, accepted))
    × (s : Conversation) × (get_session 1 with_session ≡ some s)
    × (accept_in_transaction rules other_ids 50
          (record request { command = other_command; fingerprint = "other" })
          accepted
        ≡ err key_reused)
unfolding perform_all perform get_run find update_where count_where settle in_transaction
    create_session new_session add_session get_session accept_in_transaction target_service
    get_key_by_scope accept_new accepted_input build_main_input_snapshot material_snapshot
    insert_run add_message add_run add_input add_key add_event touch_session touch_updated_at
    append_event reserve_event_sequence select_main_context gather latest_runs select sort insert
    keep reverse_onto
accept_is_idempotent_example =
    accept_is_idempotent rules text_of_command request ids 20 with_session
      (record { run = queued_run; replayed = false }) accepted refl refl other_ids 50 other_command

archive_then_restore_example :
    (db₁ : Db) × (archive_session 60 1 with_session
      ≡ ok (
        record conversation {
          status = SessionStatus.archived;
          archived_at = some 60;
          updated_at = 60;
        },
        db₁,
      ))
    × (db₂ : Db) × (update_session 70 (restore_command 1) db₁
        ≡ ok (record conversation { updated_at = 70 }, db₂))
    × (get_session 1 db₂ ≡ some (record conversation { updated_at = 70 }))
unfolding perform_all perform find settle in_transaction create_session new_session add_session
    get_session
archive_then_restore_example = archive_then_restore with_session conversation refl refl refl 60 70

context_is_exchange : length (select_main_context 1 answered_db) ≡ 2
unfolding select_main_context gather latest_runs exchange messages_of_run get_message get_delivery
    find select sort insert keep reverse_onto
context_is_exchange = refl

select_main_context-Fits_example :
    (length (select_main_context 1 answered_db) ≤ 4)
    × (codepoints (select_main_context 1 answered_db) ≤ 2000)
    × All (λ m. 1 ≤ count m.content) (select_main_context 1 answered_db)
select_main_context-Fits_example = select_main_context-Fits 1 answered_db

tool_event_is_cleaned :
    safe_event_data [] ("disk" ∷ []) tool_event
    ≡ ("node", text "tool")
      ∷ ("summary", text "工具调用成功")
      ∷ ("status", text "ok")
      ∷ ("capability_id", text "disk")
      ∷ ("capability_version", number 2)
      ∷ []
unfolding safe_event_data text_at number_at get find summary_data capability_data steps_data
    safe_tool_trace_summary
tool_event_is_cleaned = refl

safe_event_data-IsPublic_example :
    All (IsPublic [] ("disk" ∷ [])) (safe_event_data [] ("disk" ∷ []) tool_event)
safe_event_data-IsPublic_example = safe_event_data-IsPublic [] ("disk" ∷ []) tool_event
