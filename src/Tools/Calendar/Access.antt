-- ===== src/Tools/Calendar/Access.antt =====
-- Who may change the calendar through `manage_company_calendar` of
-- src/mini_rag/tools/calendar_tool.py.
use mini_enterprise_rag_agen.Common.{
  String, ◌≡◌, refl, true, false, List, ◌==◌, arith, Bool-cases, inl, inr, mem, Dict,
}
use mini_enterprise_rag_agen.Tools.Calendar.{
  Event, Python, actions, role_of, action_of, is_denied, perform, manage_company_calendar,
}

module _ {D : Type 0} (py : Python D) where
  pub events-perform_query :
      (action : String) (payload : Dict String) (events : List Event)
      → (action == "query") ≡ true
      → (perform py action payload events).1 ≡ events
  unfolding perform
  events-perform_query action payload events e = ground arith

  not_denied-query :
      (action role : String)
      → mem action actions ≡ true
      → is_denied action role ≡ false
      → (role == "admin") ≡ false
      → (action == "query") ≡ true
  unfolding is_denied mem
  not_denied-query action role known allowed other = ground arith

  -- A caller whose role is not admin leaves every event of the calendar as it was, whatever the
  -- payload.
  pub manage_company_calendar-role :
      (payload : Dict String) (events : List Event)
      → (role_of payload == "admin") ≡ false
      → (manage_company_calendar py payload events).1 ≡ events
  unfolding manage_company_calendar
  manage_company_calendar-role payload events other =
      elim (Bool-cases (mem (action_of payload) actions)) [
        | inr unknown ↦ rw (manage_company_calendar, unknown) refl
        | inl known ↦ elim (Bool-cases (is_denied (action_of payload) (role_of payload))) [
          | inl refused ↦ rw (manage_company_calendar, known, refused) refl
          | inr open_ ↦
              rw (manage_company_calendar, known, open_)
                (events-perform_query (action_of payload) payload events
                  (not_denied-query (action_of payload) (role_of payload) known open_ other))
        ]
      ]
