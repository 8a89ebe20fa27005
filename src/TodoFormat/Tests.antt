-- ===== src/TodoFormat/Tests.antt =====
-- Texts of todo lists, and the theorems at a concrete list.
use sandi.Prelude.{◌≡◌, ◌≤◌, refl, true, false, Option, none, some, [], ◌∷◌, length, arith}
use sandi.TodoFormat.Units.{units}
use sandi.TodoFormat.{
  JsText, TodoItem, ChannelTodoState, join_lines, header_lines, format_todo_line, format_todo_list,
  show_loop, discord_message_limit,
}
use sandi.TodoFormat.Shown.{Shows, format_todo_list-Shows}
use sandi.TodoFormat.Fits.{format_todo_list-fits}

abbrev seconds_of : JsText → Option JsText
seconds_of iso = some (units "1700000000")

abbrev no_day : JsText → Option (JsText × JsText)
no_day iso = none

abbrev item : JsText → TodoItem
item text = record {
  id = text;
  text = text;
  author_name = units "Ada";
  source_url = none;
  reason = some (units "soon");
  created_at = units "now";
  reminder_at = some (units "later");
  reminder_repeat = none;
  reminder_id = none;
}

abbrev groceries : ChannelTodoState
groceries = record {
  channel_id = units "c";
  title = some (units "Groceries");
  instructions = some (units "Add here");
  empty_text = none;
  grouped_reminders = false;
  message_id = none;
  items = item (units "milk") ∷ item (units "tea") ∷ [];
}

default_text :
    format_todo_list seconds_of no_day groceries
    ≡ join_lines (
        units "# Groceries"
        ∷ []
        ∷ units "Add here"
        ∷ []
        ∷ units "- milk — Ada — reminds <t:1700000000:f>"
        ∷ units "- tea — Ada — reminds <t:1700000000:f>"
        ∷ [])
unfolding format_todo_list show_loop
default_text = refl

grouped_text :
    format_todo_list seconds_of no_day (record groceries { grouped_reminders = true })
    ≡ join_lines (
        units "# Groceries"
        ∷ []
        ∷ units "Add here"
        ∷ []
        ∷ units "**Repeat**"
        ∷ units "_None._"
        ∷ []
        ∷ units "**One time**"
        ∷ units "- milk - soon"
        ∷ units "- tea - soon"
        ∷ [])
unfolding format_todo_list
grouped_text = refl

header_short : length (join_lines (header_lines groceries)) ≤ 1920
unfolding header_lines
header_short = omega arith

format_todo_list-Shows_example :
    Shows
      (format_todo_line seconds_of no_day)
      groceries
      (format_todo_list seconds_of no_day groceries)
format_todo_list-Shows_example =
    format_todo_list-Shows seconds_of no_day groceries (item (units "milk"))
      (item (units "tea") ∷ []) refl refl

format_todo_list-fits_example :
    length (format_todo_list seconds_of no_day groceries) ≤ discord_message_limit
format_todo_list-fits_example =
    format_todo_list-fits seconds_of no_day groceries (item (units "milk"))
      (item (units "tea") ∷ []) refl refl (omega arith) header_short
