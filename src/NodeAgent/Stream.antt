-- ===== src/NodeAgent/Stream.antt =====
-- certman/node_agent/poller.py: `_events`, what the agent makes of a stream of server-sent events.
pub mod Laws
use Prim.Native.Char.{code}
use certman.Base.{
  String, ◌&&◌, nat_beq, Bool, true, false, Option, none, some, List, [], ◌∷◌, ◌++◌, ◌==◌, not,
  if◌then◌else◌, truthy, strip, lstrip, split_once, join,
}
use certman.Delivery.Ingress.{second_of}
use certman.Config.Entry.{is_cons}

-- `json.loads(text).get("assignments")`: the text does not parse, the value is no list, or a list.
pub data Loaded (A : Type 0) : Type 0 where
  not_json no_list : Loaded A
  loaded : List A → Loaded A

-- `line.startswith(front)`, with the arguments turned round
unfoldable pub starts : String → String → Bool
starts String.[] line = true
starts (String.◌∷◌ c front) String.[] = false
starts (String.◌∷◌ c front) (String.◌∷◌ d line) = nat_beq (code c) (code d) && starts front line

-- The text after the first colon.
unfoldable pub field_value : String → String
field_value line = elim (second_of (split_once ":" line)) [ none ↦ "" | some value ↦ value ]

-- The lines read so far of one event.
pub record Event : Type 0 where
  pub event_type : String
  pub data_lines : List String

abbrev pub no_event : Event
no_event = record { event_type = "message"; data_lines = [] }

-- What is returned at a blank line, if anything: none to go on, some of the value that is returned.
module _ {A : Type 0} (loads : String → Loaded A) where
  unfoldable pub loaded_answer : Loaded A → Option (List A)
  loaded_answer not_json = none
  loaded_answer no_list = some []
  loaded_answer (loaded assignments) = some assignments

  unfoldable pub finished : Event → Option (Option (List A))
  unfolding loaded_answer
  finished e =
      if is_cons e.data_lines
      then if e.event_type == "assignment"
        then some (loaded_answer (loads (join "\n" e.data_lines)))
        else if e.event_type == "timeout"
        then some (some [])
        else none
      else none

  -- the event after a line that is neither blank nor a comment
  unfoldable pub take_line : String → Event → Event
  unfolding starts field_value
  take_line line e =
      if starts "event:" line
      then record e { event_type = strip (field_value line) }
      else if starts "data:" line
      then record e { data_lines = e.data_lines ++ lstrip (field_value line) ∷ [] }
      else e

  -- The loop over the lines. `broken` says that reading raises after them.
  unfoldable pub read_lines : Bool → Event → List String → Option (List A)
  unfolding starts finished take_line
  read_lines broken e [] = if broken then none else some []
  read_lines broken e (line ∷ lines) =
      if starts ":" line
      then read_lines broken e lines
      else if truthy line
      then read_lines broken (take_line line e) lines
      else elim (finished e) [ some answer ↦ answer | none ↦ read_lines broken no_event lines ]
