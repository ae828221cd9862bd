-- ===== src/Execution/Executor.antt =====
-- `execute_selected_tool` of src/mini_rag/execution/tool_executor.py, and the calls that it makes of
-- `ToolRegistry` in src/mini_rag/tools/registry.py. Payloads and results are dicts of texts; a tool
-- acts on the world `W` and may raise. The functions that the executor is given are callbacks.
pub mod Gate
pub mod Audit
use mini_enterprise_rag_agen.Common.{
  ℕ, String, Bool, true, false, ◌&&◌, ◌||◌, not, Option, none, some, List, [], ◌∷◌, ◌++◌, ◌==◌,
  if◌then◌else◌, strip, lower, or_else, text_or, length, is_some, filter, Dict, lookup, insert,
  keys, mem, ◌+++◌,
}
use mini_enterprise_rag_agen.Security.Permissions.{
  RolePolicyMap, normalize_role, granted, denied, assert_tool_action_permission,
}

-- An exception: the two that the executor catches, and any other.
pub data Raised : Type 0 where
  permission_error : String → Raised
  validation_error : String → Raised
  other_error : String → Raised

pub data Try (A : Type 0) : Type 0 where
  value : A → Try A
  raise : Raised → Try A

pub record RegisteredTool (W : Type 0) : Type 0 where
  pub name : String
  pub risk_level : String
  pub func : W → Dict String → W × Try (Dict String)

abbrev pub ToolRegistry : Type 0 → Type 0
ToolRegistry W = Dict (RegisteredTool W)

-- `reason` is the key "reason" or, of a call that was made, "error".
pub record ToolCall : Type 0 where
  pub tool_name : String
  pub action : Option String
  pub args : Dict String
  pub ok : Bool
  pub risk_level : Option String
  pub reason : Option String

pub record AuditEvent : Type 0 where
  pub tool_name : String
  pub action : Option String
  pub role : String
  pub decision : String
  pub reason : Option String

pub record Observed : Type 0 where
  pub tool_name : String
  pub result : Dict String

-- The keys of the agent's state that the executor reads or writes; `rest` is the others. A list or
-- dict that is missing is [].
pub record ToolState (X : Type 0) : Type 0 where
  pub role : Option String
  pub selected_tool : Option String
  pub required_tools : List String
  pub selected_action : Option String
  pub tool_input : Dict String
  pub tool_result : Dict String
  pub tool_calls : List ToolCall
  pub observations : List Observed
  pub audit_events : List AuditEvent
  pub route : Option String
  pub intent : Option String
  pub error : Option String
  pub final_answer : Option String
  pub time_context_payload : Dict String
  pub time_context_result : Dict String
  pub current_tool_context : Dict String
  pub trace_id : String
  pub rest : X

-- `reason` is the key "reason" or, of a call that was made, "error".
pub record ToolCallbacks (X : Type 0) : Type 0 where
  pub build_payload : ToolState X → String → String → ToolState X × Try (Dict String)
  pub verify_tool_result : String → Dict String → Dict String → Try (Dict String)
  pub build_current_tool_context : String → Dict String → Dict String → Dict String
  pub record_tool_task_result : ToolState X → ℕ → ToolState X
  pub friendly_tool_error : String → Dict String → String → String → String
  pub friendly_tool_validation_error : String → String → String
  pub friendly_permission_answer : String → String → String → String

-- What an execution leaves: the world, the state, and the exception that was not caught.
pub record Execution (W X : Type 0) : Type 0 where
  pub world : W
  pub state : ToolState X
  pub uncaught : Option String

-- What the `try` block leaves: an exception that was raised in it, if any.
pub record Attempt (W X : Type 0) : Type 0 where
  pub world : W
  pub state : ToolState X
  pub raised : Option Raised

abbrev pub set_default : String → String → Dict String → Dict String
set_default key v d = elim (lookup key d) [ none ↦ insert key v d | some w ↦ d ]

-- `bool(d.get(key))`.
abbrev pub is_set : String → Dict String → Bool
is_set key d = not (text_or (lookup key d) "" == "")

abbrev pub first_or : List String → String → String
first_or [] y = y
first_or (x ∷ xs) y = x

abbrev pub call_event : String → String → String → Dict String → AuditEvent
call_event role name action result = record {
  tool_name = name;
  action = some action;
  role = role;
  decision =
      if text_or (lookup "error" result) "" == "permission denied" then "blocked" else "allowed";
  reason = lookup "error" result;
}

abbrev pub blocked_event : String → String → Option String → String → AuditEvent
blocked_event role name action reason = record {
  tool_name = name;
  action = action;
  role = role;
  decision = "blocked";
  reason = some reason;
}

module _ {W X : Type 0} (registry : ToolRegistry W) (policies : RolePolicyMap)
    (env : ToolCallbacks X) where
  unfoldable pub has_tool : String → Bool
  has_tool name = not (name == "") && is_some (lookup name registry)

  -- `result.setdefault` of the two keys.
  unfoldable pub with_defaults :
      String → RegisteredTool W → W × Try (Dict String) → W × Try (Dict String)
  with_defaults name tool (w, raise e) = (w, raise e)
  with_defaults name tool (w, value result) =
      (w, value (set_default "risk_level" tool.risk_level (set_default "tool_name" name result)))

  unfoldable pub invoke : String → Dict String → W → W × Try (Dict String)
  invoke name payload w = elim (lookup name registry) [
    | none ↦ (w, raise (other_error ("Unknown tool: " +++ name)))
    | some tool ↦ with_defaults name tool (tool.func w payload)
  ]

  unfoldable pub selected_name : ToolState X → String
  selected_name s = text_or s.selected_tool (first_or s.required_tools "")

  -- The action that the permission is asked for.
  unfoldable pub action_of : ToolState X → Dict String → String
  action_of s payload =
      or_else (lower (strip (text_or s.selected_action (text_or (lookup "action" payload) "*"))))
        "*"

  -- The cached time is used in place of a call.
  unfoldable pub fetch : ToolState X → String → Dict String → W → W × Try (Dict String)
  fetch s name payload w =
      if name == "get_current_datetime" && is_set "current_date" s.time_context_result
      then (w, value (insert "_time_context_cache_hit" "True" s.time_context_result))
      else invoke name payload w

  unfoldable pub keep_time : String → Dict String → Dict String → ToolState X → ToolState X
  keep_time name payload result s =
      if name == "get_current_datetime"
      then record s {
        time_context_payload = payload;
        time_context_result =
            filter (λ (kv : String × String). not (kv.0 == "_time_context_cache_hit")) result;
      }
      else s

  unfoldable pub answer_of :
      String → String → String → Dict String → Dict String → ToolState X → ToolState X
  answer_of role name action payload result s =
      if is_set "error" result
      then record s { final_answer = some (env.friendly_tool_error name result role action) }
      else record s {
        current_tool_context =
            insert "trace_id" s.trace_id (env.build_current_tool_context name payload result);
        final_answer = some "";
      }

  unfoldable pub record_call :
      String → String → String → Dict String → Dict String → ToolState X → ToolState X
  record_call role name action payload result s = record s {
    tool_calls =
        s.tool_calls
        ++ record {
          tool_name = name;
          action = some action;
          args = payload;
          ok = not (is_set "error" result);
          risk_level = some (elim (lookup "risk_level" result) [ none ↦ "low" | some r ↦ r ]);
          reason = lookup "error" result;
        }
          ∷ [];
    observations = s.observations ++ record { tool_name = name; result = result } ∷ [];
    audit_events = s.audit_events ++ call_event role name action result ∷ [];
  }

  unfoldable pub after_verify :
      String → String → String → Dict String → W → ToolState X → Try (Dict String) → Attempt W X
  after_verify role name action payload w s (raise e) = record {
    world = w;
    state = s;
    raised = some e;
  }
  after_verify role name action payload w s (value result) = record {
    world = w;
    state = record_call role name action payload result (
        answer_of role name action payload result
          (record s { tool_input = payload; tool_result = result }));
    raised = none;
  }

  unfoldable pub after_fetch :
      String → String → String → Dict String → ToolState X → W × Try (Dict String) → Attempt W X
  after_fetch role name action payload s (w, raise e) = record {
    world = w;
    state = s;
    raised = some e;
  }
  after_fetch role name action payload s (w, value raw) =
      let result = set_default "tool_name" name raw in
      after_verify role name action payload w (keep_time name payload result s)
        (env.verify_tool_result name payload result)

  unfoldable pub after_payload : String → String → W → ToolState X × Try (Dict String) → Attempt W X
  after_payload role name w (s, raise e) = record { world = w; state = s; raised = some e }
  after_payload role name w (s, value payload) =
      let action = action_of s payload in
      elim (assert_tool_action_permission (some role) name (some action) policies) [
        | denied message ↦ record { world = w; state = s; raised = some (permission_error message) }
        | granted t ↦ after_fetch role name action payload s (fetch s name payload w)
      ]

  -- The handlers of PermissionError and ValidationError.
  unfoldable pub handle : String → String → W → ToolState X → Option Raised → Execution W X
  handle role name w s none = record { world = w; state = s; uncaught = none }
  handle role name w s (some (other_error message)) = record {
    world = w;
    state = s;
    uncaught = some message;
  }
  handle role name w s (some (permission_error message)) =
      let action = text_or s.selected_action (text_or (lookup "action" s.tool_input) "*") in
      record {
        world = w;
        state = record s {
          route = some "direct";
          intent = some "permission_required";
          error = some message;
          final_answer = some (env.friendly_permission_answer role name action);
          tool_calls =
              s.tool_calls
              ++ record {
                tool_name = name;
                action = some action;
                args = [];
                ok = false;
                risk_level = none;
                reason = some "permission denied";
              }
                ∷ [];
          audit_events = s.audit_events ++ blocked_event role name (some action) message ∷ [];
        };
        uncaught = none;
      }
  handle role name w s (some (validation_error message)) = record {
    world = w;
    state = record s {
      final_answer = some (env.friendly_tool_validation_error name message);
      tool_result =
          ("error", "tool_input_validation_failed")
          ∷ ("message", message)
          ∷ ("tool_name", name)
          ∷ [];
      tool_calls =
          s.tool_calls
          ++ record {
            tool_name = name;
            action = none;
            args = [];
            ok = false;
            risk_level = none;
            reason = some "tool_input_validation_failed";
          }
            ∷ [];
      audit_events =
          s.audit_events ++ blocked_event role name none "tool_input_validation_failed" ∷ [];
    };
    uncaught = none;
  }

  abbrev pub settle : String → String → Attempt W X → Execution W X
  settle role name a = handle role name a.world a.state a.raised

  unfoldable pub no_tool : ToolState X → ToolState X
  no_tool s = record s {
    route = some "reject";
    error = some "No tool selected";
    final_answer = some "没有识别到可执行的企业能力。";
    tool_result = ("error", "no tool selected") ∷ [];
  }

  unfoldable pub unknown_tool : String → String → ToolState X → ToolState X
  unknown_tool role name s = record s {
    error = some ("Unknown tool: " +++ name);
    final_answer = some "没有识别到可执行的企业能力。";
    tool_result = ("error", "unknown tool") ∷ ("tool_name", name) ∷ [];
    tool_calls =
        s.tool_calls
        ++ record {
          tool_name = name;
          action = none;
          args = [];
          ok = false;
          risk_level = none;
          reason = some "unknown tool";
        }
          ∷ [];
    audit_events = s.audit_events ++ blocked_event role name none "unknown tool" ∷ [];
  }

  -- Everything before the call of `record_tool_task_result`.
  unfoldable pub gated : ToolState X → W → Execution W X
  gated s w =
      let role = normalize_role s.role in
      let name = selected_name s in
      if name == ""
      then record { world = w; state = no_tool s; uncaught = none }
      else if not (has_tool name)
      then record { world = w; state = unknown_tool role name s; uncaught = none }
      else settle role name (after_payload role name w (env.build_payload s name role))

  -- An exception that was not caught skips the record of the task.
  unfoldable pub execute_selected_tool : ToolState X → W → Execution W X
  execute_selected_tool s w =
      let done = gated s w in
      if is_some done.uncaught
      then done
      else record done { state = env.record_tool_task_result done.state (length s.tool_calls) }
