-- ===== src/Goals/Loop/Rounds.antt =====
-- The loop of `apply_goal_aware_completion` in src/mini_rag/orchestration/goal_react.py: at most
-- three checks of the goal, each with at most one further run of the executor.
use mini_enterprise_rag_agen.Common.{
  ℕ, zero, suc, ◌+◌, String, true, Option, none, some, List, [], ◌∷◌, ◌++◌, ◌==◌, if◌then◌else◌,
  text_or, length, ◌≡◌, refl, ◌⊎◌, inl, inr,
}
use mini_enterprise_rag_agen.Orchestration.React.{ExecutionResult, AgentState}
use mini_enterprise_rag_agen.Orchestration.React.Rounds.{next, returned, violated, Callbacks}
use mini_enterprise_rag_agen.Orchestration.React.Run.{run}
use mini_enterprise_rag_agen.Goals.Check.{
  Goal, SafeNextAction, CompletionCheckResult, checked, check_goal_completion,
}
use mini_enterprise_rag_agen.Goals.Append.{append_safe_react_task}
use mini_enterprise_rag_agen.Goals.Loop.{
  SafeIssue, CheckEntry, completion_check, blocked, triggered, GoalKeys, GoalStep, GoalResult,
  Nodes, no_goal, entry_of, plain_steps, merged_steps, completion_user_message,
  validate_safe_react_task,
}

-- The local variables of the loop, with the state.
pub record GoalLoop (Y : Type 0) : Type 0 where
  pub state : AgentState (GoalKeys Y)
  pub steps : List GoalStep
  pub current_status : String

pub data Outcome (Y : Type 0) : Type 0 where
  finished : AgentState (GoalKeys Y) → GoalResult → Outcome Y
  raised : AgentState (GoalKeys Y) → String → Outcome Y

pub data RoundEnd (Y : Type 0) : Type 0 where
  again : GoalLoop Y → RoundEnd Y
  ended : Outcome Y → RoundEnd Y

pub RoundEnd-cases :
    {Y : Type 0} (v : RoundEnd Y)
    → ((l : GoalLoop Y) × (v ≡ again l)) ⊎ ((o : Outcome Y) × (v ≡ ended o))
RoundEnd-cases (again l) = inl (l, refl)
RoundEnd-cases (ended o) = inr (o, refl)

module _ {Y : Type 0} where
  abbrev pub with_keys : AgentState (GoalKeys Y) → GoalKeys Y → AgentState (GoalKeys Y)
  with_keys state keys = record state { rest = keys }

  unfoldable pub check_of : AgentState (GoalKeys Y) → Goal → CompletionCheckResult
  check_of state goal =
      check_goal_completion state.rest.task_results state.rest.previous_tool_context goal

  unfoldable pub check_entry : ℕ → CompletionCheckResult → GoalKeys Y → CheckEntry
  check_entry iteration check keys = record (entry_of check) {
    iteration = some iteration;
    safe_next_action_triggered = keys.safe_next_action_triggered;
    safe_next_action_source =
        if keys.safe_next_action_triggered
        then some (text_or keys.safe_next_action_source "deterministic")
        else (entry_of check).safe_next_action_source;
  }

  unfoldable pub recorded :
      ℕ → CompletionCheckResult → AgentState (GoalKeys Y) → AgentState (GoalKeys Y)
  recorded iteration check state =
      let keys = state.rest in
      let entry = check_entry iteration check keys in
      with_keys state (record keys {
        completion_check = some entry;
        completion_checks = keys.completion_checks ++ entry ∷ [];
        goal_observations =
            keys.goal_observations
            ++ completion_check iteration check entry.safe_next_action_source ∷ [];
      })

  abbrev pub answered : String → AgentState (GoalKeys Y) → AgentState (GoalKeys Y)
  answered answer state = record state { final_answer = some answer }

  abbrev pub goal_ended : AgentState (GoalKeys Y) → String → List GoalStep → String → RoundEnd Y
  goal_ended state status steps reason =
      ended (finished state (record { status = status; steps = steps; finish_reason = reason }))

  -- The next action did not pass the checks.
  unfoldable pub blocked_end :
      CheckEntry → SafeIssue → AgentState (GoalKeys Y) → List GoalStep → RoundEnd Y
  blocked_end entry issue state steps =
      let keys = state.rest in
      let refused = record entry {
        check = record (entry.check) { status = "failed"; reason = "safe_next_action_blocked" };
        error = some issue;
      } in
      goal_ended
        (answered "目标尚未完成，且补执行动作未通过安全校验，所以不会执行日历写操作。" (
          with_keys state (record keys {
            goal_observations = keys.goal_observations ++ blocked issue ∷ [];
            completion_check = some refused;
          })))
        "failed" steps "safe_next_action_blocked"

module _ {W Y : Type 0} (nodes : Nodes W Y) (env : Callbacks (GoalKeys Y)) (max_steps : ℕ) where
  -- `run` does not end with `next`.
  unfoldable pub follow_up : ℕ → AgentState (GoalKeys Y) → GoalLoop Y → RoundEnd Y
  follow_up iteration state l = elim (run env max_steps state) [
    | next l' ↦ ended (raised l'.state "")
    | violated after message ↦ ended (raised after message)
    | returned after result ↦ again (record {
      state = after;
      steps = l.steps ++ merged_steps iteration (length l.steps) result.steps;
      current_status = result.status;
    })
  ]

  unfoldable pub safe_round :
      ℕ → CompletionCheckResult → SafeNextAction → AgentState (GoalKeys Y) → GoalLoop Y → RoundEnd Y
  safe_round iteration check safe state l =
      let (longer, task) = append_safe_react_task nodes.str state safe.task iteration in
      let keys = longer.rest in
      elim (validate_safe_react_task nodes longer task) [
        | some issue ↦ blocked_end (check_entry iteration check l.state.rest) issue longer l.steps
        | none ↦
            follow_up iteration
              (with_keys longer (record keys {
                goal_observations = keys.goal_observations ++ triggered safe task ∷ [];
                safe_next_action_triggered = true;
                safe_next_action_source = some (text_or (some safe.source) "deterministic");
              }))
              l
      ]

  unfoldable pub incomplete_round :
      ℕ → CompletionCheckResult → AgentState (GoalKeys Y) → GoalLoop Y → RoundEnd Y
  incomplete_round iteration check state l = elim check.safe_next_action [
    | none ↦
        goal_ended (answered (completion_user_message check) state) "partial" l.steps check.reason
    | some safe ↦ safe_round iteration check safe state l
  ]

  unfoldable pub goal_round : ℕ → Goal → GoalLoop Y → RoundEnd Y
  goal_round iteration goal l =
      let check = check_of l.state goal in
      let state = recorded iteration check l.state in
      let message = completion_user_message check in
      if check.status == "completed"
      then goal_ended state (if l.current_status == "success" then "success" else l.current_status)
          l.steps check.reason
      else if check.status == "partial"
      then goal_ended state "partial" l.steps check.reason
      else if check.status == "needs_clarification"
      then goal_ended (answered message (record state { intent = some "need_clarification" }))
          "need_clarification" l.steps check.reason
      else if check.status == "failed"
      then goal_ended (answered message state) "failed" l.steps check.reason
      else incomplete_round iteration check state l

  -- `{**completion_check, …}` at the limit.
  abbrev limit_entry : Option CheckEntry → Option CheckEntry
  limit_entry none =
      some (record (entry_of (checked "partial" "" "max_goal_react_steps_reached" [])) {
        safe_next_action_source = none;
        max_steps_reached = true;
      })
  limit_entry (some entry) = some (record entry {
    check = record (entry.check) { status = "partial"; reason = "max_goal_react_steps_reached" };
    max_steps_reached = true;
  })

  unfoldable pub goal_rounds : ℕ → ℕ → Goal → GoalLoop Y → Outcome Y
  goal_rounds zero iteration goal l =
      let keys = l.state.rest in
      finished
        (answered "目标尚未确认完成，已达到受控 ReAct 最大步数，未继续执行。" (
          with_keys l.state (record keys { completion_check = limit_entry keys.completion_check })))
        (record {
          status = "partial";
          steps = l.steps;
          finish_reason = "max_goal_react_steps_reached";
        })
  goal_rounds (suc left) iteration goal l = elim (goal_round iteration goal l) [
    | again l' ↦ goal_rounds left (iteration + 1) goal l'
    | ended outcome ↦ outcome
  ]

  unfoldable pub apply_goal_aware_completion : AgentState (GoalKeys Y) → ExecutionResult → Outcome Y
  apply_goal_aware_completion state result =
      let keys = state.rest in
      elim keys.goal_contract [
        | none ↦
            finished
              (with_keys state
                (record keys { completion_check = some (entry_of (check_of state no_goal)) }))
              (record {
                status = result.status;
                steps = plain_steps result.steps;
                finish_reason = result.finish_reason;
              })
        | some goal ↦ goal_rounds 3 1 goal (record {
          state = state;
          steps = plain_steps result.steps;
          current_status = result.status;
        })
      ]
