-- ===== src/Planning/Attendance.antt =====
-- `validate_attendance_tasks` of src/mini_rag/capabilities/attendance/validator.py. A task is the
-- executor's task with the keys of its tool input that the validator reads.
use mini_enterprise_rag_agen.Common.{
  String, ◌≡◌, refl, Bool, true, false, ◌&&◌, ◌||◌, not, Option, none, some, List, [], ◌∷◌, ◌==◌,
  if◌then◌else◌, strip, lower, contains, text_or, or_else, arith, Bool-cases, Option-cases, inl,
  inr, is_some, is_empty, mem, all, any,
}
use mini_enterprise_rag_agen.Security.Permissions.{normalize_role}
use mini_enterprise_rag_agen.Orchestration.React.{Task, kind_of, either}

abbrev pub full_attendance_roles : List String
full_attendance_roles = "hr" ∷ "admin" ∷ []

abbrev pub limited_attendance_roles : List String
limited_attendance_roles = "employee" ∷ "user" ∷ []

-- The key "status_filters": a list, a text, or neither.
pub data StatusFilters : Type 0 where
  filter_list : List String → StatusFilters
  filter_text : String → StatusFilters
  no_filters : StatusFilters

pub record AttendanceTask : Type 0 where
  pub task : Task
  pub employee_name : Option String
  pub department : Option String
  pub group_by : Option String
  pub include_records : Bool
  pub status_filter : Option String
  pub status_filters : StatusFilters

pub record ValidationIssue : Type 0 where
  pub code : String
  pub message : String
  pub layer : String
  pub task_id : Option String
  pub field : Option String

pub record ValidationResult : Type 0 where
  pub status : String
  pub issues : List ValidationIssue
  pub reason : String

abbrev pub none_if_empty : Option String → Option String
none_if_empty none = none
none_if_empty (some x) = if x == "" then none else some x

unfoldable pub has_status_filter : AttendanceTask → Bool
has_status_filter t = not (strip (text_or t.status_filter "") == "") || elim t.status_filters [
  | filter_list xs ↦ not (is_empty xs)
  | filter_text x ↦ true
  | no_filters ↦ false
]

-- The four tests that are joined by `or`.
unfoldable pub is_broad : AttendanceTask → Bool
is_broad t =
    let department = or_else (strip (text_or t.department "all")) "all" in
    let group_by = lower (strip (text_or t.group_by "")) in
    let objective = either t.task.objective t.task.query in
    not (department == "" || department == "all")
    || group_by == "employee"
    || (t.include_records || contains "明细" objective || contains "完整" objective)
    || (has_status_filter t
        && any (λ token. contains token objective) ("异常" ∷ "迟到" ∷ "缺勤" ∷ "请假" ∷ []))

unfoldable pub attendance_scope_issue : AttendanceTask → String → Option ValidationIssue
attendance_scope_issue t role =
    if not (mem role limited_attendance_roles)
    then some (record {
      code = "attendance_role_not_allowed";
      message = "当前角色无权查看考勤数据。";
      layer = "validator";
      task_id = none_if_empty t.task.task_id;
      field = some "role";
    })
    else if not (strip (text_or t.employee_name "") == "")
    then none
    else if is_broad t
    then some (record {
      code = "attendance_scope_requires_hr";
      message = "普通员工无权查看部门或全员考勤明细。";
      layer = "validator";
      task_id = none_if_empty t.task.task_id;
      field = some "attendance_scope";
    })
    else none

unfoldable pub is_attendance_task : AttendanceTask → Bool
is_attendance_task t =
    kind_of t.task == "tool" && text_or t.task.tool "" == "query_attendance_summary"

abbrev pub valid_result : ValidationResult
valid_result = record { status = "valid"; issues = []; reason = "" }

abbrev pub refused_result : ValidationIssue → ValidationResult
refused_result issue = record {
  status = "refused";
  issues = issue ∷ [];
  reason = "attendance data scope requires HR/admin role";
}

unfoldable pub validate_each : List AttendanceTask → String → ValidationResult
validate_each [] role = valid_result
validate_each (t ∷ tasks) role =
    let rest = validate_each tasks role in
    if not (is_attendance_task t)
    then rest
    else elim (attendance_scope_issue t role) [ none ↦ rest | some issue ↦ refused_result issue ]

unfoldable pub validate_attendance_tasks : List AttendanceTask → Option String → ValidationResult
validate_attendance_tasks tasks role =
    let normalized_role = normalize_role role in
    if mem normalized_role full_attendance_roles
    then valid_result
    else validate_each tasks normalized_role

unfoldable pub is_unfiltered : StatusFilters → Bool
is_unfiltered (filter_list []) = true
is_unfiltered (filter_list (x ∷ xs)) = false
is_unfiltered (filter_text x) = false
is_unfiltered no_filters = true

-- Neither key asks for a status, or the text has no word for an anomaly or an absence.
unfoldable pub asks_no_anomaly : String → AttendanceTask → Bool
asks_no_anomaly objective t =
    (strip (text_or t.status_filter "") == "" && is_unfiltered t.status_filters)
    || not (
        contains "异常" objective
        || contains "迟到" objective
        || contains "缺勤" objective
        || contains "请假" objective)

-- What an employee or user may ask: about a named person; or about no department but "all", not
-- grouped by employee, without records, in words that ask for no detail and no anomaly list.
unfoldable pub is_own_scope : String → AttendanceTask → Bool
is_own_scope role t =
    let objective = either t.task.objective t.task.query in
    mem role ("employee" ∷ "user" ∷ [])
    && (not (strip (text_or t.employee_name "") == "")
        || (mem (strip (text_or t.department "")) ("" ∷ "all" ∷ [])
            && not (lower (strip (text_or t.group_by "")) == "employee")
            && not t.include_records
            && not (contains "明细" objective)
            && not (contains "完整" objective)
            && asks_no_anomaly objective t))

has_status_filter_lem :
    (t : AttendanceTask)
    → has_status_filter t
      ≡ not (strip (text_or t.status_filter "") == "" && is_unfiltered t.status_filters)
unfolding has_status_filter is_unfiltered
has_status_filter_lem t = by_filters t.status_filters
  where
    by_filters :
        (f : StatusFilters)
        → (not (strip (text_or t.status_filter "") == "") || elim f [
          | filter_list xs ↦ not (is_empty xs)
          | filter_text x ↦ true
          | no_filters ↦ false
        ])
          ≡ not (strip (text_or t.status_filter "") == "" && is_unfiltered f)
    by_filters (filter_list []) = ground arith
    by_filters (filter_list (x ∷ xs)) = ground arith
    by_filters (filter_text x) = ground arith
    by_filters no_filters = ground arith

or_all :
    (x : String)
    → not (or_else x "all" == "" || or_else x "all" == "all") ≡ not (mem x ("" ∷ "all" ∷ []))
unfolding mem
or_all x = elim (Bool-cases (x == "")) [
  | inl empty ↦ rw empty refl
  | inr named ↦ rw named (ground arith)
]

any_department :
    (department : Option String)
    → not (
        or_else (strip (text_or department "all")) "all" == ""
        || or_else (strip (text_or department "all")) "all" == "all")
      ≡ not (mem (strip (text_or department "")) ("" ∷ "all" ∷ []))
unfolding mem strip
any_department none = refl
any_department (some d) = elim (Bool-cases (d == "")) [
  | inl empty ↦ rw empty refl
  | inr named ↦ rw named (or_all (strip d))
]

is_broad_lem :
    (role : String) (t : AttendanceTask)
    → is_own_scope role t ≡ (
        mem role limited_attendance_roles
        && (not (strip (text_or t.employee_name "") == "") || not (is_broad t)))
unfolding is_own_scope is_broad asks_no_anomaly any
is_broad_lem role t = ground (arith, has_status_filter_lem t, any_department t.department)

scope_issue-none :
    (t : AttendanceTask) (role : String)
    → not (is_some (attendance_scope_issue t role)) ≡ is_own_scope role t
unfolding attendance_scope_issue
scope_issue-none t role = ground (arith, is_broad_lem role t)

validate_each-status :
    (tasks : List AttendanceTask) (role : String)
    → ((validate_each tasks role).status == "valid")
      ≡ all (λ t. not (is_attendance_task t) || is_own_scope role t) tasks
unfolding validate_each all
validate_each-status [] role = refl
validate_each-status (t ∷ tasks) role = elim (Bool-cases (is_attendance_task t)) [
  | inr other ↦ rw (validate_each, other) (validate_each-status tasks role)
  | inl asks ↦ elim (Option-cases (attendance_scope_issue t role)) [
    | inl clear ↦
        rw (validate_each, asks, ← scope_issue-none t role, clear) (validate_each-status tasks role)
    | inr (issue, found) ↦ rw (validate_each, asks, ← scope_issue-none t role, found) refl
  ]
]

-- A plan passes exactly when the role is hr or admin, or, for employee or user, each of its
-- attendance tasks names a person, or asks for no department but "all", is not grouped by employee,
-- takes no records, has no word for detail and, where it filters by status, no word for an anomaly
-- or an absence; other roles pass only without attendance tasks.
pub validate_attendance_tasks-status :
    (tasks : List AttendanceTask) (role : Option String)
    → ((validate_attendance_tasks tasks role).status == "valid") ≡ (
        mem (normalize_role role) ("hr" ∷ "admin" ∷ [])
        || all
            (λ t.
              not (kind_of t.task == "tool" && text_or t.task.tool "" == "query_attendance_summary")
              || is_own_scope (normalize_role role) t)
            tasks)
unfolding validate_attendance_tasks is_attendance_task
validate_attendance_tasks-status tasks role =
    elim (Bool-cases (mem (normalize_role role) full_attendance_roles)) [
      | inl full ↦ rw (validate_attendance_tasks, full) refl
      | inr limited ↦
          rw (validate_attendance_tasks, limited) (validate_each-status tasks (normalize_role role))
    ]
