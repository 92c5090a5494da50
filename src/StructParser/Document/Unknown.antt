-- ===== src/StructParser/Document/Unknown.antt =====
-- A document of a struct with one member more, whose key is none of the fields.
use cppapiframework.Common.{◌≢◌, List, ◌∷◌, ◌++◌, Bytes, text}
use cppapiframework.Common.Outcome.{Outcome, thrown}
use cppapiframework.StructParser.Document.{fields}
use cppapiframework.StructParser.Filler.{Library}
use cppapiframework.StructParser.Machine.{Parser, Event, key, start_object, parser_of}
use cppapiframework.StructParser.Target.{struct, Fields, no_fields, field, Elements, node}

-- No field has this name.
abbrev pub NoField : Bytes → Fields → Type 0
NoField k no_fields = Unit
NoField k (field i s fs) = (i ≢ k) × NoField k fs

module _ (l : Library) (fs : Fields) (es : Elements) (k : Bytes) where
  -- The parser behind the fields, at the unknown key.
  abbrev pub at_key : Parser
  at_key = record (parser_of (struct fs)) { current_key = k; root = node es }

  -- The members of the struct, then the key and what follows it.
  abbrev pub with_member : Event → List Event → List Event
  with_member e rest = start_object ∷ (fields fs es ++ key k ∷ (e ∷ rest))

  abbrev pub unknown : Outcome Parser
  unknown = thrown (text "invalid key " ++ k)
