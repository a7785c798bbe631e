-- ===== src/Ipsec/Vici.antt =====
-- The messages of the VICI protocol, as `Get` and `Keys` of the govici package show them: a
-- sequence of keys, each with a text, a list of texts, or a message of its own.
use fortivpn_go.Prelude.{Option, none, some, List, [], if◌then◌else◌, Text, text_eq}

mutual
  pub data Value : Type 0 where
    text_value : Text → Value
    list_value : List Text → Value
    section : Message → Value

  pub data Message : Type 0 where
    empty_message : Message
    field : Text → Value → Message → Message

-- `m.Get(key)`; nil for a key that is not there.
unfoldable pub get : Text → Message → Option Value
get key empty_message = none
get key (field k v rest) = if text_eq k key then some v else get key rest

abbrev pub as_text : Option Value → Text
as_text (some (text_value t)) = t
as_text _ = []

abbrev pub as_list : Option Value → List Text
as_list (some (list_value ts)) = ts
as_list _ = []

abbrev pub as_message : Option Value → Option Message
as_message (some (section m)) = some m
as_message _ = none

-- `text` and `list` of state.go: a value of another kind reads as empty.
unfoldable pub text : Message → Text → Text
unfolding get
text m key = as_text (get key m)

unfoldable pub list : Message → Text → List Text
unfolding get
list m key = as_list (get key m)

unfoldable pub subsection : Message → Text → Option Message
unfolding get
subsection m key = as_message (get key m)
