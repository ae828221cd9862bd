-- ===== src/Memory/Examples.antt =====
-- Concrete runs of the conversation memory: a database with two sessions, and a turn of one of them.
use mini_enterprise_rag_agen.Common.{
  ℕ, String, ◌≡◌, refl, arith, false, List, none, some, [], ◌∷◌, ◌++◌, map, filter,
}
use mini_enterprise_rag_agen.Memory.Store.{
  Turn, ContextDb, named, insert_desc, order_desc, select_turns, read_context, get_context,
  update_summary, insert_turn, append_turn,
}
use mini_enterprise_rag_agen.Memory.Store.Recent.{IsFresh}
use mini_enterprise_rag_agen.Memory.Store.Refinement.{
  Write, summarise, remember, write_all, empty_db, nothing_remembered, replay, context_of,
  get_context-replay,
}
use mini_enterprise_rag_agen.Memory.Service.{
  MemoryState, MemoryCallbacks, a_text, updated, compute_update, from_payload, entities_or,
  coerce_list, turn_of, persist, update_memory,
}
use mini_enterprise_rag_agen.Memory.Service.Persist.{update_memory-get_context, update_memory-other}

abbrev turn : String → Turn String ℕ
turn q = record {
  question = q;
  answer = "a";
  standalone_query = q;
  memory_answer = "a";
  intent = "tool";
  topic = "";
  entities = [];
  sources = [];
  trace = 0;
  created_at = 5;
}

abbrev store : ContextDb String ℕ
store = record {
  sessions = ("s1", record { summary = "old"; updated_at = 3 }) ∷ [];
  turns =
      record { id = 1; session_id = "s1"; turn = turn "first" }
      ∷ record { id = 2; session_id = "s2"; turn = turn "elsewhere" }
      ∷ record { id = 4; session_id = "s1"; turn = turn "second" }
      ∷ [];
  next_id = 5;
}

store-IsFresh : IsFresh store
store-IsFresh = (ground arith, (ground arith, (ground arith, tt)))

abbrev model : MemoryCallbacks String ℕ ℕ
model = record {
  should_use_lightweight_memory = λ s. false;
  invoke_json = λ s. (
    record s { rest = 9 },
    record {
      memory_answer = some "short";
      summary = some "new";
      topic = none;
      entities = some (a_text "HR");
    },
  );
  strip_citations_and_metadata = λ s. s;
  build_trace = λ s. s.rest;
  on_complete = λ s. record s { rest = 0 };
}

abbrev state : MemoryState String ℕ
state = record {
  question = "third";
  standalone_query = none;
  final_answer = "answer [1]";
  conversation_summary = "old";
  topic = "leave";
  intent = "rag";
  entities = [];
  sources = "doc" ∷ [];
  session_id = some "s1";
  memory_update = none;
  rest = 7;
}

latest_two :
    map (λ (t : Turn String ℕ). t.question) (get_context store (some "s1") 2).turns
    ≡ "first" ∷ "second" ∷ []
unfolding get_context named read_context select_turns order_desc insert_desc filter
latest_two = refl

latest_one :
    map (λ (t : Turn String ℕ). t.question) (get_context store (some "s1") 1).turns ≡ "second" ∷ []
unfolding get_context named read_context select_turns order_desc insert_desc filter
latest_one = refl

stored_turn :
    map
      (λ (t : Turn String ℕ). t.standalone_query ∷ (t.memory_answer ∷ (t.topic ∷ t.entities)))
      (get_context (update_memory model state store 10 11 12).1 (some "s1") 1).turns
    ≡ ("third" ∷ "short" ∷ "leave" ∷ "HR" ∷ []) ∷ []
unfolding get_context named read_context select_turns order_desc insert_desc update_memory persist
    updated compute_update from_payload entities_or coerce_list turn_of append_turn insert_turn
    update_summary filter
stored_turn = refl

update_memory-get_context_example :
    get_context (update_memory model state store 10 11 12).1 (some "s1") 2 ≡ record {
      session_id = some "s1";
      summary = (updated model state).1.summary;
      turns =
          (get_context store (some "s1") 1).turns
          ++ turn_of model state.final_answer (updated model state).0 (updated model state).1 12
            ∷ [];
    }
    × IsFresh (update_memory model state store 10 11 12).1
unfolding updated compute_update from_payload
update_memory-get_context_example =
    update_memory-get_context model state store 10 11 12 "s1" 1 refl refl store-IsFresh

update_memory-other_example :
    get_context (update_memory model state store 10 11 12).1 (some "s2") 3
    ≡ get_context store (some "s2") 3
unfolding updated compute_update from_payload
update_memory-other_example =
    update_memory-other model state store 10 11 12 "s1" "s2" 3 refl refl refl

abbrev writes : List (Write String ℕ)
writes =
    remember (some "s1") (turn "first") 1
    ∷ remember (some "s2") (turn "elsewhere") 2
    ∷ summarise (some "s1") "new" 3
    ∷ remember (some "s1") (turn "second") 4
    ∷ remember none (turn "lost") 5
    ∷ []

get_context-replay_example :
    get_context (write_all empty_db writes) (some "s1") 1
    ≡ context_of (replay nothing_remembered writes) (named (some "s1")) 1
get_context-replay_example = get_context-replay writes (some "s1") 1
