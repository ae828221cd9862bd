-- ===== src/Execution/Executor/Gate.antt =====
-- What `execute_selected_tool` of src/mini_rag/execution/tool_executor.py may do to the world, and
-- what it records.
use mini_enterprise_rag_agen.Common.{
  String, ◌≡◌, refl, ◌∙◌, ◌&&◌, Option, none, some, ◌==◌, ◌⊎◌, inl, inr, arith, Bool-cases,
  Option-cases, Dict, lookup,
}
use mini_enterprise_rag_agen.Security.Permissions.{
  RolePolicyMap, Checked, normalize_role, granted, denied, assert_tool_action_permission,
}
use mini_enterprise_rag_agen.Execution.Executor.{
  Raised, permission_error, validation_error, other_error, Try, value, raise, RegisteredTool,
  ToolRegistry, ToolState, ToolCallbacks, has_tool, with_defaults, invoke, selected_name, action_of,
  fetch, after_verify, after_fetch, after_payload, handle, gated, execute_selected_tool, is_set,
}

pub Checked-cases : (c : Checked (Unit {0})) → (c ≡ granted tt) ⊎ ((m : String) × (c ≡ denied m))
Checked-cases (granted t) = inl refl
Checked-cases (denied m) = inr (m, refl)

module _ {W X : Type 0} (registry : ToolRegistry W) (policies : RolePolicyMap)
    (env : ToolCallbacks X) where
  -- One call of a registered tool, with the payload that was built for it, that the role's
  -- permissions grant: it leaves the world `v`.
  pub record IsPermittedCall (s : ToolState X) (w v : W) (name : String) : Type 0 where
    pub payload : Dict String
    pub tool : RegisteredTool W
    pub built : ToolState X
    pub is_registered : lookup name registry ≡ some tool
    pub is_built : env.build_payload s name (normalize_role s.role) ≡ (built, value payload)
    pub is_granted :
        assert_tool_action_permission
          (some (normalize_role s.role))
          name
          (some (action_of registry policies env built payload))
          policies
        ≡ granted tt
    pub is_result : v ≡ (tool.func w payload).0

  world-with_defaults :
      (name : String) (tool : RegisteredTool W) (r : W × Try (Dict String))
      → (with_defaults registry policies env name tool r).0 ≡ r.0
  unfolding with_defaults
  world-with_defaults name tool (w, raise e) = refl
  world-with_defaults name tool (w, value result) = refl

  world-handle :
      (role name : String) (w : W) (s : ToolState X) (e : Option Raised)
      → (handle registry policies env role name w s e).world ≡ w
  unfolding handle
  world-handle role name w s none = refl
  world-handle role name w s (some (other_error m)) = refl
  world-handle role name w s (some (permission_error m)) = refl
  world-handle role name w s (some (validation_error m)) = refl

  world-after_verify :
      (role name action : String) (payload : Dict String) (w : W) (s : ToolState X)
      (r : Try (Dict String))
      → (after_verify registry policies env role name action payload w s r).world ≡ w
  unfolding after_verify
  world-after_verify role name action payload w s (raise e) = refl
  world-after_verify role name action payload w s (value result) = refl

  world-after_fetch :
      (role name action : String) (payload : Dict String) (s : ToolState X)
      (r : W × Try (Dict String))
      → (after_fetch registry policies env role name action payload s r).world ≡ r.0
  unfolding after_fetch
  world-after_fetch role name action payload s (w, raise e) = refl
  world-after_fetch role name action payload s (w, value raw) =
      world-after_verify role name action payload w _ _

  invoke-found :
      (name : String) (payload : Dict String) (w : W) (tool : RegisteredTool W)
      → lookup name registry ≡ some tool
      → (invoke registry policies env name payload w).0 ≡ (tool.func w payload).0
  unfolding invoke
  invoke-found name payload w tool found =
      rw (invoke, found) (world-with_defaults name tool (tool.func w payload))

  world-fetch :
      (s : ToolState X) (name : String) (payload : Dict String) (w : W) (tool : RegisteredTool W)
      → lookup name registry ≡ some tool
      → ((fetch registry policies env s name payload w).0 ≡ w)
        ⊎ ((fetch registry policies env s name payload w).0 ≡ (tool.func w payload).0)
  unfolding fetch
  world-fetch s name payload w tool found =
      elim (Bool-cases
        (name == "get_current_datetime" && is_set "current_date" s.time_context_result)) [
          | inl cached ↦ inl (rw (fetch, cached) refl)
          | inr called ↦ inr (rw (fetch, called) (invoke-found name payload w tool found))
        ]

  -- The permission was asked for and the payload built.
  world-payload :
      (s s' : ToolState X) (w : W) (name : String) (payload : Dict String) (tool : RegisteredTool W)
      → lookup name registry ≡ some tool
      → env.build_payload s name (normalize_role s.role) ≡ (s', value payload)
      → ((after_payload registry policies env
            (normalize_role s.role)
            name
            w
            (s', value payload)).world
          ≡ w)
        ⊎ IsPermittedCall s w
            (after_payload registry policies env
              (normalize_role s.role)
              name
              w
              (s', value payload)).world
            name
  unfolding after_payload
  world-payload s s' w name payload tool found built =
      let action = action_of registry policies env s' payload in
      elim (Checked-cases (
        assert_tool_action_permission (some (normalize_role s.role)) name (some action) policies)) [
          | inr (m, refused) ↦ inl (rw (after_payload, refused) refl)
          | inl agreed ↦ elim (world-fetch s' name payload w tool found) [
            | inl kept ↦
                inl
                  (rw (after_payload, agreed) (world-after_fetch _ name action payload s' _ ∙ kept))
            | inr called ↦ inr (record {
              payload = payload;
              tool = tool;
              built = s';
              is_registered = found;
              is_built = built;
              is_granted = agreed;
              is_result =
                  rw (after_payload, agreed)
                    (world-after_fetch _ name action payload s' _ ∙ called);
            })
          ]
        ]

  world-built :
      (s : ToolState X) (w : W) (name : String) (r : ToolState X × Try (Dict String))
      (tool : RegisteredTool W)
      → lookup name registry ≡ some tool
      → env.build_payload s name (normalize_role s.role) ≡ r
      → ((after_payload registry policies env (normalize_role s.role) name w r).world ≡ w)
        ⊎ IsPermittedCall s w
            (after_payload registry policies env (normalize_role s.role) name w r).world
            name
  unfolding after_payload
  world-built s w name (s', raise e) tool found built = inl refl
  world-built s w name (s', value payload) tool found built =
      world-payload s s' w name payload tool found built

  world-gated :
      (s : ToolState X) (w : W)
      → ((gated registry policies env s w).world ≡ w)
        ⊎ IsPermittedCall s w
            (gated registry policies env s w).world
            (selected_name registry policies env s)
  unfolding gated has_tool
  world-gated s w =
      let name = selected_name registry policies env s in
      let role = normalize_role s.role in
      elim (Bool-cases (name == "")) [
        | inl nothing ↦ inl (rw (gated, nothing) refl)
        | inr some_name ↦ elim (Option-cases (lookup name registry)) [
          | inl missing ↦ inl (rw (gated, some_name, has_tool, missing) refl)
          | inr (tool, found) ↦
              rw (gated, some_name, has_tool, found, world-handle role name)
                (world-built s w name (env.build_payload s name role) tool found refl)
        ]
      ]

  world-execute :
      (s : ToolState X) (w : W)
      → (execute_selected_tool registry policies env s w).world
        ≡ (gated registry policies env s w).world
  unfolding execute_selected_tool
  world-execute s w = ground arith

  -- An execution leaves the world as it was, or as one call of the selected tool leaves it, which is
  -- registered, whose payload was built for it, and which the role's permissions grant for the
  -- selected action, or for the payload's where none is selected.
  pub execute_selected_tool-world :
      (s : ToolState X) (w : W)
      → ((execute_selected_tool registry policies env s w).world ≡ w)
        ⊎ IsPermittedCall s w
            (execute_selected_tool registry policies env s w).world
            (selected_name registry policies env s)
  execute_selected_tool-world s w = rw (world-execute s w) (world-gated s w)
