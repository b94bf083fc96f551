-- ===== src/Telegram/Updates.antt =====
-- The classification of raw updates in `src/telegram/telegram-polling-worker.ts`.
pub mod Terminal
use text.Mathlib.Text.{starts_with}
use telegram_news_agent.Prelude.{
  ℕ, suc, String, Bool, true, false, not, ◌&&◌, ◌||◌, Option, none, some, List, [], ◌∷◌, ltb, leb,
  ◌==◌, if◌then◌else◌, is_some, count, str_eq,
}
use telegram_news_agent.Prelude.Text.{max_safe_integer, is_empty}

-- A number of JavaScript: an integer, where `negative n` is -(n + 1), or any other one.
pub data Numeric : Type 0 where
  whole negative : ℕ → Numeric
  fractional : Numeric

mutual
  -- A value that `JSON.parse` gives; a field that is not there is undefined.
  pub data Json : Type 0 where
    null : Json
    bool : Bool → Json
    number : Numeric → Json
    string : String → Json
    array : Items → Json
    object : Fields → Json

  pub data Items : Type 0 where
    no_items : Items
    item : Json → Items → Items

  pub data Fields : Type 0 where
    no_fields : Fields
    field : String → Json → Fields → Fields

pub data Kind : Type 0 where
  malformed public_feedback admin_callback ignored_callback aggregate_reaction : Kind
  ignored_individual_reaction message ignored : Kind

pub record Classification : Type 0 where
  pub update_id : ℕ
  pub kind : Kind
  pub is_terminal : Bool
  pub error_code : Option String

-- The classification, or the code of a `TelegramUpdateProtocolError` that is thrown.
pub data Classified : Type 0 where
  throws_protocol : String → Classified
  classified : Classification → Classified

-- `Number.isSafeInteger` of a property that may be missing
abbrev pub is_safe_integer : Option Json → Bool
is_safe_integer (some (Json.number (Numeric.whole n))) = leb n max_safe_integer
is_safe_integer (some (Json.number (Numeric.negative n))) = ltb n max_safe_integer
is_safe_integer _ = false

abbrev pub is_record : Option Json → Bool
is_record (some (Json.object _)) = true
is_record _ = false

abbrev pub is_array : Option Json → Bool
is_array (some (Json.array _)) = true
is_array _ = false

pub find_field : String → Fields → Option Json
find_field name no_fields = none
find_field name (field key value rest) =
    let found = find_field name rest in if str_eq key name then some value else found

-- `value.name`
pub get_field : String → Option Json → Option Json
unfolding find_field
get_field name (some (Json.object fields)) = find_field name fields
get_field name _ = none

-- an update id: a safe integer that is not negative
abbrev id_of : Option Json → Option ℕ
id_of (some (Json.number (Numeric.whole n))) = if leb n max_safe_integer then some n else none
id_of _ = none

pub update_id : Json → Option ℕ
unfolding get_field
update_id update = id_of (get_field "update_id" (some update))

abbrev pub malformed_update : ℕ → String → Classification
malformed_update id code = record {
  update_id = id;
  kind = malformed;
  is_terminal = true;
  error_code = some code;
}

abbrev pub update_of : ℕ → Kind → Classification
update_of id kind = record { update_id = id; kind = kind; is_terminal = false; error_code = none }

update_body_fields : List String
update_body_fields =
    "message" ∷ "callback_query" ∷ "message_reaction" ∷ "message_reaction_count" ∷ []

pub present_fields : Json → ℕ
unfolding get_field update_body_fields
present_fields update = count (λ name. is_some (get_field name (some update))) update_body_fields

-- `typeof value === "string" && value`
abbrev is_full_text : Option Json → Bool
is_full_text (some (Json.string s)) = not (is_empty s)
is_full_text _ = false

abbrev pub callback_kind : Option Json → Kind
callback_kind (some (Json.string data_text)) =
    if starts_with data_text "aud:"
    then public_feedback
    else if starts_with data_text "lab:"
        || starts_with data_text "cfg:"
        || starts_with data_text "news:"
    then admin_callback
    else ignored_callback
callback_kind _ = ignored_callback

is_reaction_count : Option Json → Bool
unfolding get_field
is_reaction_count reaction =
    is_record reaction
    && is_record (get_field "chat" reaction)
    && is_safe_integer (get_field "id" (get_field "chat" reaction))
    && is_safe_integer (get_field "message_id" reaction)
    && is_safe_integer (get_field "date" reaction)
    && is_array (get_field "reactions" reaction)

-- the body of an update that has one at most
unfoldable pub classify_body :
    ℕ → Option Json → Option Json → Option Json → Option Json → Classification
unfolding get_field is_reaction_count
classify_body id (some callback) _ _ _ =
    if is_record (some callback) && is_full_text (get_field "id" (some callback))
    then update_of id (callback_kind (get_field "data" (some callback)))
    else malformed_update id "invalid_callback_query"
classify_body id none (some reaction_count) _ _ =
    if is_reaction_count (some reaction_count)
    then update_of id aggregate_reaction
    else malformed_update id "invalid_reaction_count"
classify_body id none none (some reaction) _ =
    if is_record (some reaction)
    then update_of id ignored_individual_reaction
    else malformed_update id "invalid_individual_reaction"
classify_body id none none none (some content) =
    if is_record (some content)
    then update_of id Kind.message
    else malformed_update id "invalid_message"
classify_body id none none none none = update_of id ignored

classify_known : ℕ → Json → Classification
unfolding present_fields get_field
classify_known id update =
    if ltb 1 (present_fields update)
    then malformed_update id "multiple_update_bodies"
    else classify_body id (get_field "callback_query" (some update))
        (get_field "message_reaction_count" (some update))
        (get_field "message_reaction" (some update)) (get_field "message" (some update))

classify_id : Option ℕ → Json → Classified
unfolding classify_known
classify_id none update = Classified.throws_protocol "invalid_update_id"
classify_id (some id) update = Classified.classified (classify_known id update)

unfoldable pub classify_telegram_update : Json → Classified
unfolding update_id classify_id
classify_telegram_update update = classify_id (update_id update) update
