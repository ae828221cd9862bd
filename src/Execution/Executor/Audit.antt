-- ===== src/Execution/Executor/Audit.antt =====
-- What `execute_selected_tool` of src/mini_rag/execution/tool_executor.py writes to the audit log.
use mini_enterprise_rag_agen.Common.{
  Option, String, Bool, ◌≡◌, refl, ap, subst, true, false, none, some, List, [], ◌∷◌, ◌++◌, ◌==◌,
  if◌then◌else◌, text_or, ◌⊎◌, inl, inr, arith, Bool-cases, Dict, lookup,
}
use mini_enterprise_rag_agen.Security.Permissions.{
  RolePolicyMap, normalize_role, granted, assert_tool_action_permission,
}
use mini_enterprise_rag_agen.Execution.Executor.{
  Raised, permission_error, validation_error, other_error, Try, value, raise, ToolRegistry,
  ToolState, ToolCallbacks, AuditEvent, Execution, Attempt, has_tool, selected_name, action_of,
  fetch, keep_time, answer_of, record_call, after_verify, after_fetch, after_payload, handle,
  settle, call_event, blocked_event, unknown_tool, gated, set_default,
}
use mini_enterprise_rag_agen.Execution.Executor.Gate.{Checked-cases}

-- Why the event reads as it does, in the state that is left: "allowed" for a registered tool whose
-- action the permissions grant to the role and whose result does not refuse it, "blocked" for the
-- four kinds of failure.
pub data IsJustified {X : Type 0} (found : Bool) (policies : RolePolicyMap) (s : ToolState X)
    (e : AuditEvent) : Type 0 where
  allowed :
      (action : String)
      → found ≡ true
      → e.action ≡ some action
      → assert_tool_action_permission (some e.role) e.tool_name (some action) policies ≡ granted tt
      → (text_or e.reason "" == "permission denied") ≡ false
      → e.decision ≡ "allowed"
      → IsJustified found policies s e
  refused_by_tool :
      (text_or e.reason "" == "permission denied") ≡ true
      → e.decision ≡ "blocked"
      → IsJustified found policies s e
  forbidden :
      s.error ≡ e.reason
      → s.intent ≡ some "permission_required"
      → e.decision ≡ "blocked"
      → IsJustified found policies s e
  invalid :
      lookup "error" s.tool_result ≡ some "tool_input_validation_failed"
      → e.reason ≡ some "tool_input_validation_failed"
      → e.decision ≡ "blocked"
      → IsJustified found policies s e
  unknown :
      found ≡ false
      → e.reason ≡ some "unknown tool"
      → e.decision ≡ "blocked"
      → IsJustified found policies s e

-- One event more than `prior`, of this tool and role, with a decision that is justified.
pub record IsAudited {X : Type 0} (found : Bool) (policies : RolePolicyMap)
    (prior : List AuditEvent) (name role : String) (s : ToolState X) : Type 0 where
  pub event : AuditEvent
  pub is_last : s.audit_events ≡ prior ++ event ∷ []
  pub is_of_tool : event.tool_name ≡ name
  pub is_of_role : event.role ≡ role
  pub is_justified : IsJustified found policies s event

abbrev IsAttempted :
    {W X : Type 0} → RolePolicyMap → List AuditEvent → String → String → Attempt W X → Type 0
IsAttempted policies prior name role a =
    (a.raised ≡ none × IsAudited true policies prior name role a.state)
    ⊎ ((e : Raised) × (a.raised ≡ some e × a.state.audit_events ≡ prior))

-- The executor's outcome: one event more, or an exception of another kind than the handlers' that
-- was raised and escaped, and none.
abbrev pub IsSettled :
    {W X : Type 0}
    → Bool
    → RolePolicyMap
    → List AuditEvent
    → String
    → String
    → Option Raised
    → Execution W X
    → Type 0
IsSettled found policies prior name role raised x =
    (x.uncaught ≡ none × IsAudited found policies prior name role x.state)
    ⊎ ((m : String) × (raised ≡ some (other_error m)
          × (x.uncaught ≡ some m × x.state.audit_events ≡ prior)))

call_event-IsJustified :
    {X : Type 0} (policies : RolePolicyMap) (s : ToolState X) (role name action : String)
    (result : Dict String)
    → assert_tool_action_permission (some role) name (some action) policies ≡ granted tt
    → IsJustified true policies s (call_event role name action result)
call_event-IsJustified policies s role name action result agreed =
    elim (Bool-cases (text_or (lookup "error" result) "" == "permission denied")) [
      | inl refused ↦ refused_by_tool refused (rw refused refl)
      | inr fine ↦ allowed action refl refl agreed fine (rw fine refl)
    ]

module _ {W X : Type 0} (registry : ToolRegistry W) (policies : RolePolicyMap)
    (env : ToolCallbacks X) where
  audit-keep_time :
      (name : String) (payload result : Dict String) (s : ToolState X)
      → (keep_time registry policies env name payload result s).audit_events ≡ s.audit_events
  unfolding keep_time
  audit-keep_time name payload result s = ground arith

  audit-answer_of :
      (role name action : String) (payload result : Dict String) (s : ToolState X)
      → (answer_of registry policies env role name action payload result s).audit_events
        ≡ s.audit_events
  unfolding answer_of
  audit-answer_of role name action payload result s = ground arith

  audit-after_verify :
      (role name action : String) (payload : Dict String) (w : W) (s : ToolState X)
      (r : Try (Dict String))
      → assert_tool_action_permission (some role) name (some action) policies ≡ granted tt
      → IsAttempted policies s.audit_events name role
          (after_verify registry policies env role name action payload w s r)
  unfolding after_verify record_call
  audit-after_verify role name action payload w s (raise e) agreed = inr (e, (refl, refl))
  audit-after_verify role name action payload w s (value result) agreed = inl (
    refl,
    record {
      event = call_event role name action result;
      is_last =
          ap (λ l. l ++ call_event role name action result ∷ [])
            (audit-answer_of role name action payload result _);
      is_of_tool = refl;
      is_of_role = refl;
      is_justified = call_event-IsJustified policies _ role name action result agreed;
    },
  )

  audit-after_fetch :
      (role name action : String) (payload : Dict String) (s : ToolState X)
      (r : W × Try (Dict String))
      → assert_tool_action_permission (some role) name (some action) policies ≡ granted tt
      → IsAttempted policies s.audit_events name role
          (after_fetch registry policies env role name action payload s r)
  unfolding after_fetch
  audit-after_fetch role name action payload s (w, raise e) agreed = inr (e, (refl, refl))
  audit-after_fetch role name action payload s (w, value raw) agreed =
      let result = set_default "tool_name" name raw in
      subst
        (λ l.
          IsAttempted policies l name role
            (after_fetch registry policies env role name action payload s (w, value raw)))
        (audit-keep_time name payload result s)
        (audit-after_verify role name action payload w _
          (env.verify_tool_result name payload result) agreed)

  audit-after_payload :
      (role name : String) (w : W) (r : ToolState X × Try (Dict String))
      → IsAttempted policies r.0.audit_events name role
          (after_payload registry policies env role name w r)
  unfolding after_payload
  audit-after_payload role name w (s, raise e) = inr (e, (refl, refl))
  audit-after_payload role name w (s, value payload) =
      let action = action_of registry policies env s payload in
      elim (Checked-cases (assert_tool_action_permission (some role) name (some action) policies)) [
        | inr (m, refused) ↦ rw (after_payload, refused) (inr (permission_error m, (refl, refl)))
        | inl agreed ↦
            rw (after_payload, agreed)
              (audit-after_fetch role name action payload s
                (fetch registry policies env s name payload w) agreed)
      ]

  audit-handle :
      (prior : List AuditEvent) (role name : String) (w : W) (s : ToolState X) (e : Raised)
      → s.audit_events ≡ prior
      → IsSettled true policies prior name role
          (some e)
          (handle registry policies env role name w s (some e))
  unfolding handle lookup
  audit-handle prior role name w s (other_error m) same = inr (m, (refl, (refl, same)))
  audit-handle prior role name w s (permission_error m) same = inl (
    refl,
    record {
      event =
          blocked_event role name
            (some (text_or s.selected_action (text_or (lookup "action" s.tool_input) "*"))) m;
      is_last = rw same refl;
      is_of_tool = refl;
      is_of_role = refl;
      is_justified = forbidden refl refl refl;
    },
  )
  audit-handle prior role name w s (validation_error m) same = inl (
    refl,
    record {
      event = blocked_event role name none "tool_input_validation_failed";
      is_last = rw same refl;
      is_of_tool = refl;
      is_of_role = refl;
      is_justified = invalid refl refl refl;
    },
  )

  audit-settle :
      (prior : List AuditEvent) (role name : String) (a : Attempt W X)
      → IsAttempted policies prior name role a
      → IsSettled true policies prior name role a.raised (settle registry policies env role name a)
  unfolding handle
  audit-settle prior role name a (inl (fine, audited)) = rw (handle, fine) (inl (refl, audited))
  audit-settle prior role name a (inr (e, (caught, same))) =
      rw caught (audit-handle prior role name a.world a.state e same)

  -- The events before the executor's own: those that the building of the payload left.
  abbrev pub prior_events : ToolState X → List AuditEvent
  prior_events s =
      if has_tool registry policies env (selected_name registry policies env s)
      then (env.build_payload s (selected_name registry policies env s)
          (normalize_role s.role)).0.audit_events
      else s.audit_events

  -- Where a tool is selected, either an exception other than a permission or validation error
  -- is raised, escapes and no event is added, or exactly one is, with the tool and the normalised role, before
  -- the task is recorded. The event reads "allowed" only for a registered tool and an action that
  -- the permissions grant, with a result that is no refusal; it reads "blocked" for an unknown tool,
  -- a permission error, invalid input or a result that refuses permission.
  pub gated-audit :
      (s : ToolState X) (w : W)
      → (selected_name registry policies env s == "") ≡ false
      → IsSettled
          (has_tool registry policies env (selected_name registry policies env s))
          policies
          (prior_events s)
          (selected_name registry policies env s)
          (normalize_role s.role)
          (after_payload registry policies env
            (normalize_role s.role)
            (selected_name registry policies env s)
            w
            (env.build_payload s
              (selected_name registry policies env s)
              (normalize_role s.role))).raised
          (gated registry policies env s w)
  unfolding gated unknown_tool
  gated-audit s w chosen =
      let name = selected_name registry policies env s in
      elim (Bool-cases (has_tool registry policies env name)) [
        | inr missing ↦
            rw (gated, chosen, missing)
              (inl (
                refl,
                record {
                  event = blocked_event (normalize_role s.role) name none "unknown tool";
                  is_last = refl;
                  is_of_tool = refl;
                  is_of_role = refl;
                  is_justified = unknown refl refl refl;
                },
              ))
        | inl found ↦
            rw (gated, chosen, found)
              (audit-settle _ (normalize_role s.role) name _ (
                audit-after_payload (normalize_role s.role) name w
                  (env.build_payload s name (normalize_role s.role))))
      ]
