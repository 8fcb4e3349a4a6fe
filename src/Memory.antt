-- ===== src/Memory.antt =====
-- memory_store.py: `ShortTermMemory`, the window of recent turns. `collections.deque` with a
-- `maxlen` drops its first element when an append makes it too long.
pub mod Window
mod Tests
use smallpieclaw.Prelude.{
  ℕ, String, Option, none, some, List, [], ◌∷◌, ◌++◌, if◌then◌else◌, leb, length, drop,
}

pub record Message : Type 0 where
  pub role : String
  pub content : String

pub record ShortTermMemory : Type 0 where
  pub max_turns : ℕ
  pub buffer : List Message

-- self._buffer.append(message)
unfoldable pub append : ℕ → List Message → Message → List Message
append max_turns buffer m =
    let longer = buffer ++ m ∷ [] in if leb (length longer) max_turns then longer else drop 1 longer

abbrev pub new : ℕ → ShortTermMemory
new max_turns = record { max_turns = max_turns; buffer = [] }

unfoldable pub add : String → String → ShortTermMemory → ShortTermMemory
unfolding append
add role content memory = record memory {
  buffer = append memory.max_turns memory.buffer (record { role = role; content = content });
}

abbrev pub clear : ShortTermMemory → ShortTermMemory
clear memory = record memory { buffer = [] }

-- An entry of the saved list, `none` where it is not a dict with both keys; the texts are those
-- that `str` gives.
unfoldable pub load_entries : ℕ → List (Option Message) → List Message → List Message
unfolding append
load_entries max_turns [] buffer = buffer
load_entries max_turns (none ∷ entries) buffer = load_entries max_turns entries buffer
load_entries max_turns (some m ∷ entries) buffer =
    load_entries max_turns entries (append max_turns buffer m)

unfoldable pub from_dict : List (Option Message) → ℕ → ShortTermMemory
unfolding load_entries
from_dict entries max_turns = record {
  max_turns = max_turns;
  buffer = load_entries max_turns entries [];
}

-- What `to_dict` saves, as entries.
unfoldable pub to_dict : List Message → List (Option Message)
to_dict [] = []
to_dict (m ∷ buffer) = some m ∷ to_dict buffer

-- The operations that change a memory, for histories of them.
pub data Op : Type 0 where
  add_op : (role content : String) → Op
  clear_op : Op

unfoldable pub replay : List Op → ShortTermMemory → ShortTermMemory
unfolding add
replay [] memory = memory
replay (add_op role content ∷ ops) memory = replay ops (add role content memory)
replay (clear_op ∷ ops) memory = replay ops (clear memory)
