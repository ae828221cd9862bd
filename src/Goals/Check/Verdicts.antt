-- ===== src/Goals/Check/Verdicts.antt =====
-- The checks of src/mini_rag/orchestration/completion.py for each kind of goal.
use mini_enterprise_rag_agen.Common.{
  String, Bool, true, false, ◌&&◌, ◌||◌, not, Option, none, some, List, [], ◌∷◌, ◌==◌, eqb,
  if◌then◌else◌, strip, lower, text_or, mem, filter, any, is_empty, length, Dict,
}
use mini_enterprise_rag_agen.Tools.Calendar.{get_or}
use mini_enterprise_rag_agen.Goals.Check.Results.{
  TaskResult, Goal, PreviousContext, CompletionCheckResult, checked, is_text, clean_expected_result,
  calendar_results, write_success, calendar_delete_success, matches_expected, latest_calendar_query,
}
use mini_enterprise_rag_agen.Goals.Check.NextAction.{
  build_safe_calendar_update_task, build_safe_calendar_delete_task,
  single_previous_calendar_event_id, with_safe, after_query,
}

unfoldable pub check_open_update :
    List TaskResult → Option PreviousContext → Dict String → CompletionCheckResult
check_open_update results previous expected =
    let event_id = single_previous_calendar_event_id previous in
    elim (latest_calendar_query results) [
      | some events ↦
          after_query "calendar_update" "query_completed_but_update_missing" true expected
            (λ i. build_safe_calendar_update_task i expected) events
      | none ↦
          if not (event_id == "") && not (is_empty expected)
          then with_safe
              (checked "incomplete" "calendar_update" "previous_context_event_update_missing"
                expected)
              "unique_previous_calendar_event" (build_safe_calendar_update_task event_id expected)
          else checked "incomplete" "calendar_update" "no_update_result" expected
    ]

unfoldable pub check_calendar_update :
    List TaskResult → Option PreviousContext → Goal → CompletionCheckResult
check_calendar_update results previous goal =
    let expected = clean_expected_result goal.expected_result in
    let updates = calendar_results "update" results in
    let successful = filter (write_success "updated") updates in
    if is_empty updates
    then check_open_update results previous expected
    else if is_empty successful
    then checked "failed" "calendar_update" "update_failed" expected
    else if any (λ (r : TaskResult). matches_expected expected r.tool_result.event) successful
    then checked "completed" "calendar_update" "updated_fields_match" expected
    else checked "failed" "calendar_update" "updated_field_mismatch" expected

unfoldable pub check_calendar_create : List TaskResult → Goal → CompletionCheckResult
check_calendar_create results goal =
    let expected = clean_expected_result goal.expected_result in
    let creates = calendar_results "create" results in
    let successful = filter (write_success "created") creates in
    if is_empty creates
    then checked "incomplete" "calendar_create" "no_create_result" expected
    else if is_empty successful
    then checked "failed" "calendar_create" "create_failed" expected
    else if any (λ (r : TaskResult). matches_expected expected r.tool_result.event) successful
    then checked "completed" "calendar_create" "created_fields_match" expected
    else checked "failed" "calendar_create" "created_field_mismatch" expected

unfoldable pub check_open_delete : List TaskResult → Option PreviousContext → CompletionCheckResult
check_open_delete results previous =
    let event_id = single_previous_calendar_event_id previous in
    elim (latest_calendar_query results) [
      | some events ↦
          after_query "calendar_delete" "query_completed_but_delete_missing" false []
            build_safe_calendar_delete_task events
      | none ↦
          if not (event_id == "")
          then with_safe
              (checked "incomplete" "calendar_delete" "previous_context_event_delete_missing" [])
              "unique_previous_calendar_event" (build_safe_calendar_delete_task event_id)
          else checked "incomplete" "calendar_delete" "no_delete_result" []
    ]

unfoldable pub check_calendar_delete :
    List TaskResult → Option PreviousContext → CompletionCheckResult
check_calendar_delete results previous =
    let deletes = calendar_results "delete" results in
    if is_empty deletes
    then check_open_delete results previous
    else if is_empty (filter calendar_delete_success deletes)
    then checked "failed" "calendar_delete" "delete_failed" []
    else checked "completed" "calendar_delete" "deleted" []

-- A result of the wanted skill that is ok; `wanted` is "" where the goal names none.
unfoldable pub is_skill_done : String → TaskResult → Bool
is_skill_done wanted r =
    is_text r.tool_name "skill"
    && (wanted == "" || strip (text_or r.skill_name (text_or r.skill_result_name "")) == wanted)
    && r.skill_ok

unfoldable pub check_skill : List TaskResult → Goal → CompletionCheckResult
check_skill results goal =
    if any (is_skill_done (strip (get_or "skill_name" "" goal.target))) results
    then checked "completed" "skill_analysis" "skill_ok" []
    else checked "incomplete" "skill_analysis" "skill_result_missing" []

unfoldable pub is_supported : TaskResult → Bool
is_supported r = r.has_sources || r.has_supporting_sources || lower (text_or r.status "") == "ok"

unfoldable pub check_rag : List TaskResult → CompletionCheckResult
check_rag results =
    let rag_results = filter (λ (r : TaskResult). lower (text_or r.kind "") == "rag") results in
    let supported = filter is_supported rag_results in
    let related = filter (λ (r : TaskResult). r.has_related_sources) rag_results in
    if is_empty rag_results
    then checked "incomplete" "rag_answer" "rag_result_missing" []
    else if not (is_empty supported) && eqb (length supported) (length rag_results)
    then checked "completed" "rag_answer" "supporting_sources_present" []
    else if not (is_empty supported) || not (is_empty related)
    then checked "partial" "rag_answer" "partial_or_related_evidence" []
    else checked "failed" "rag_answer" "unsupported" []

unfoldable pub is_tool_done : String → String → TaskResult → Bool
is_tool_done wanted_tool wanted_action r =
    lower (text_or r.kind "") == "tool"
    && (wanted_tool == "" || is_text r.tool_name wanted_tool)
    && (wanted_action == "" || is_text r.action wanted_action)
    && mem (lower (text_or r.status "")) ("ok" ∷ "success" ∷ [])

unfoldable pub check_tool_query : List TaskResult → Goal → CompletionCheckResult
check_tool_query results goal =
    if any
      (is_tool_done (strip (get_or "tool_name" "" goal.target))
        (strip (get_or "action" "" goal.target)))
      results
    then checked "completed" "tool_query" "tool_result_present" []
    else checked "incomplete" "tool_query" "tool_result_missing" []

unfoldable pub check_mixed : List TaskResult → CompletionCheckResult
check_mixed results =
    let rag = check_rag results in
    if mem rag.status ("failed" ∷ "unsupported" ∷ [])
    then checked "partial" "mixed" rag.reason rag.expected_result
    else checked "completed" "mixed" "mixed_goal_checked_lightly" []

unfoldable pub check_goal_completion :
    List TaskResult → Option PreviousContext → Goal → CompletionCheckResult
check_goal_completion results previous goal =
    let goal_type = strip (text_or goal.goal_type "") in
    if goal_type == ""
    then checked "completed" "none" "no_goal_contract" []
    else if goal_type == "calendar_update"
    then check_calendar_update results previous goal
    else if goal_type == "calendar_create"
    then check_calendar_create results goal
    else if goal_type == "calendar_delete"
    then check_calendar_delete results previous
    else if goal_type == "skill_analysis"
    then check_skill results goal
    else if goal_type == "rag_answer"
    then check_rag results
    else if goal_type == "mixed"
    then check_mixed results
    else check_tool_query results goal
