-- ===== src/Memory/Service.antt =====
-- `MemoryService.update_memory` of src/mini_rag/memory/service.py. The state is a record of the keys
-- that the service uses, `rest` the others; the language model, the removal of citations and the
-- trace are callbacks.
pub mod Persist
use mini_enterprise_rag_agen.Common.{
  ℕ, String, Bool, Option, none, some, List, [], ◌∷◌, ◌==◌, if◌then◌else◌, text_or, is_empty,
}
use mini_enterprise_rag_agen.Memory.Store.{Turn, ContextDb, named, update_summary, append_turn}

pub record MemoryUpdate : Type 0 where
  pub memory_answer : String
  pub summary : String
  pub topic : String
  pub entities : List String

-- A missing key with a "" or [] default is that default.
pub record MemoryState (S X : Type 0) : Type 0 where
  pub question : String
  pub standalone_query : Option String
  pub final_answer : String
  pub conversation_summary : String
  pub topic : String
  pub intent : String
  pub entities : List String
  pub sources : List S
  pub session_id : Option String
  pub memory_update : Option MemoryUpdate
  pub rest : X

-- The value of the key "entities", with `str` applied to the members of a list.
pub data EntityValue : Type 0 where
  a_list : List String → EntityValue
  a_text : String → EntityValue
  another : EntityValue

-- What the language model returned, `none` for a missing or empty key.
pub record MemoryPayload : Type 0 where
  pub memory_answer : Option String
  pub summary : Option String
  pub topic : Option String
  pub entities : Option EntityValue

pub record MemoryCallbacks (S R X : Type 0) : Type 0 where
  pub should_use_lightweight_memory : MemoryState S X → Bool
  pub invoke_json : MemoryState S X → MemoryState S X × MemoryPayload
  pub strip_citations_and_metadata : String → String
  pub build_trace : MemoryState S X → R
  pub on_complete : MemoryState S X → MemoryState S X

unfoldable pub coerce_list : EntityValue → List String
coerce_list (a_list xs) = xs
coerce_list (a_text x) = x ∷ []
coerce_list another = []

-- `coerce_list(payload.get("entities") or entities)`.
unfoldable pub entities_or : Option EntityValue → List String → List String
entities_or none entities = entities
entities_or (some (a_list xs)) entities = if is_empty xs then entities else coerce_list (a_list xs)
entities_or (some (a_text x)) entities = if x == "" then entities else coerce_list (a_text x)
entities_or (some another) entities = coerce_list another

abbrev pub text_default : Option String → String → String
text_default none y = y
text_default (some x) y = x

module _ {S R X : Type 0} (env : MemoryCallbacks S R X) where
  -- `answer` and `old_summary` were read before the call of the language model.
  unfoldable pub from_payload :
      String → String → MemoryState S X × MemoryPayload → MemoryState S X × MemoryUpdate
  from_payload answer old_summary (state, payload) = (
    state,
    record {
      memory_answer = text_or payload.memory_answer (env.strip_citations_and_metadata answer);
      summary = text_or payload.summary old_summary;
      topic = text_or payload.topic state.topic;
      entities = entities_or payload.entities state.entities;
    },
  )

  unfoldable pub compute_update : MemoryState S X → MemoryState S X × MemoryUpdate
  compute_update state =
      if env.should_use_lightweight_memory state
      then (
        state,
        record {
          memory_answer = env.strip_citations_and_metadata state.final_answer;
          summary = state.conversation_summary;
          topic = state.topic;
          entities = state.entities;
        },
      )
      else from_payload state.final_answer state.conversation_summary (env.invoke_json state)

  unfoldable pub turn_of : String → MemoryState S X → MemoryUpdate → ℕ → Turn S R
  turn_of answer state update now = record {
    question = state.question;
    answer = answer;
    standalone_query = text_default state.standalone_query state.question;
    memory_answer = update.memory_answer;
    intent = state.intent;
    topic = update.topic;
    entities = update.entities;
    sources = state.sources;
    trace = env.build_trace state;
    created_at = now;
  }

  -- `now`, `soon` and `later` are three readings of the clock.
  unfoldable pub persist :
      String → MemoryState S X → MemoryUpdate → ContextDb S R → ℕ → ℕ → ℕ → ContextDb S R
  persist answer state update db now soon later = elim (named state.session_id) [
    | none ↦ db
    | some name ↦
        append_turn (update_summary db state.session_id update.summary now) state.session_id
          (turn_of answer state update later) soon
  ]

  unfoldable pub updated : MemoryState S X → MemoryState S X × MemoryUpdate
  updated state =
      let (s, update) = compute_update state in (record s { memory_update = some update }, update)

  unfoldable pub update_memory :
      MemoryState S X → ContextDb S R → ℕ → ℕ → ℕ → MemoryState S X × ContextDb S R
  update_memory state db now soon later = (
    env.on_complete (updated state).0,
    persist state.final_answer (updated state).0 (updated state).1 db now soon later,
  )
