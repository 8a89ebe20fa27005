-- ===== src/TodoFormat.antt =====
-- The text of an interactive todo list: src/surfaces/discord/shared/todo-format.ts and the time stamps of
-- src/surfaces/discord/shared/format.ts. A text is its list of UTF-16 code units, as JavaScript counts them.
-- What `Date` and `Intl` give is an argument: the seconds of a time, and its day and time of day, as texts.
pub mod Units
pub mod Shown
pub mod Fits
mod Tests
use Prim.Native.Char.{code}
use sandi.Prelude.{
  ℕ, zero, suc, ◌+◌, ◌-◌, ◌/◌, ◌%◌, String, Bool, true, false, not, Option, none, some, List, [],
  ◌∷◌, ◌++◌, map, if◌then◌else◌, ltb, leb, eqb, length, filter, is_some, get_or_else,
}
use mathlib.Core.List.{reverse}
use Units.{units}

abbrev pub JsText : Type 0
JsText = List ℕ

abbrev pub discord_message_limit : ℕ
discord_message_limit = 2000

abbrev pub display_item_limit : ℕ
display_item_limit = 160

pub record TodoItem : Type 0 where
  pub id : JsText
  pub text : JsText
  pub author_name : JsText
  pub source_url : Option JsText
  pub reason : Option JsText
  pub created_at : JsText
  pub reminder_at : Option JsText
  pub reminder_repeat : Option JsText
  pub reminder_id : Option JsText

pub record ChannelTodoState : Type 0 where
  pub channel_id : JsText
  pub title : Option JsText
  pub instructions : Option JsText
  pub empty_text : Option JsText
  pub grouped_reminders : Bool
  pub message_id : Option JsText
  pub items : List TodoItem

-- `lines.join("\n")`
abbrev pub join_lines : List JsText → JsText
join_lines [] = []
join_lines (line ∷ []) = line
join_lines (line ∷ next ∷ more) = line ++ 10 ∷ join_lines (next ∷ more)

-- A number as a text; the fuel is above the number of digits.
unfoldable pub digits : ℕ → ℕ → JsText
digits zero n = []
digits (suc fuel) n =
    let front = digits fuel (n / 10) in
    if ltb n 10 then (48 + n) ∷ [] else front ++ (48 + n % 10) ∷ []

abbrev pub decimal : ℕ → JsText
decimal n = digits (suc n) n

-- `value ? f(value) : ""`, where an empty text counts as none.
abbrev pub when_given : (JsText → JsText) → Option JsText → JsText
when_given f none = []
when_given f (some []) = []
when_given f (some (unit ∷ value)) = f (unit ∷ value)

abbrev pub is_given : Option JsText → Bool
is_given none = false
is_given (some []) = false
is_given (some (unit ∷ value)) = true

abbrev pub slice : ℕ → JsText → JsText
slice zero s = []
slice (suc n) [] = []
slice (suc n) (unit ∷ s) = unit ∷ slice n s

pub limit_display_text : JsText → JsText
limit_display_text value =
    if leb (length value) display_item_limit
    then value
    else slice (display_item_limit - 1) value ++ units "…"

-- The loop of `formatTodoList` over the items from the last one back, for any text of a line: the items that
-- are shown, the last one first, and how many are hidden.
abbrev pub shown_text : (TodoItem → JsText) → List JsText → List TodoItem → List JsText → JsText
shown_text line_of lines visible last = join_lines (lines ++ map line_of (reverse visible) ++ last)

unfoldable pub show_loop :
    (TodoItem → JsText) → List JsText → List TodoItem → List TodoItem → ℕ → List TodoItem × ℕ
show_loop line_of lines [] visible hidden = (visible, hidden)
show_loop line_of lines (item ∷ more) visible hidden =
    let skipped = show_loop line_of lines more visible (hidden + 1) in
    let taken = show_loop line_of lines more (visible ++ item ∷ []) hidden in
    if ltb (discord_message_limit - 80)
      (length (shown_text line_of lines visible (line_of item ∷ [])))
    then skipped
    else taken

abbrev pub hidden_note : ℕ → List JsText
hidden_note zero = []
hidden_note (suc n) =
    (units "_Plus "
      ++ decimal (suc n)
      ++ units " older item"
      ++ (if eqb (suc n) 1 then [] else units "s")
      ++ units " hidden to keep this in one Discord message._")
    ∷ []
    ∷ []

abbrev pub finish_list : (TodoItem → JsText) → List JsText → List TodoItem × ℕ → JsText
finish_list line_of lines (visible, hidden) =
    join_lines ((lines ++ hidden_note hidden) ++ map line_of (reverse visible))

abbrev pub list_lines : (TodoItem → JsText) → Option JsText → List JsText → List TodoItem → JsText
unfolding show_loop
list_lines line_of empty_text lines [] =
    join_lines (lines ++ get_or_else empty_text (units "_Nothing here yet._") ∷ [])
list_lines line_of empty_text lines (item ∷ items) =
    finish_list line_of lines (show_loop line_of lines (reverse (item ∷ items)) [] 0)

pub default_instructions : JsText
default_instructions =
    units
      "In `todo-` / `tasks-` channels, type what to add or change; Sandi updates this list and removes handled messages. Elsewhere, use **Add item** below or explicit `todo: ...` capture."

unfoldable pub header_lines : ChannelTodoState → List JsText
unfolding default_instructions
header_lines list =
    (units "# " ++ get_or_else list.title (units "To-do list"))
    ∷ []
    ∷ get_or_else list.instructions default_instructions
    ∷ []
    ∷ []

module _ (epoch_seconds : JsText → Option JsText)
    (day_and_time : JsText → Option (JsText × JsText)) where
  -- `formatDiscordTimestamp`
  abbrev stamp : JsText → Option JsText → JsText
  stamp iso none = iso
  stamp iso (some seconds) = units "<t:" ++ seconds ++ units ":f>"

  pub format_discord_timestamp : JsText → JsText
  format_discord_timestamp iso = stamp iso (epoch_seconds iso)

  pub format_todo_line : TodoItem → JsText
  unfolding format_discord_timestamp limit_display_text
  format_todo_line item =
      units "- "
      ++ limit_display_text item.text
      ++ units " — "
      ++ item.author_name
      ++ when_given (λ at. units " — reminds " ++ format_discord_timestamp at) item.reminder_at
      ++ when_given (λ repeat. units " — repeats " ++ repeat) item.reminder_repeat
      ++ when_given (λ url. units " ([source](" ++ url ++ units "))") item.source_url

  -- `formatGroupedReminderList`
  abbrev day_text : Option (JsText × JsText) → JsText
  day_text none = []
  day_text (some (day, time)) = units " - " ++ day ++ units " - " ++ time

  pub format_grouped_repeat_line : TodoItem → JsText
  unfolding limit_display_text
  format_grouped_repeat_line item =
      units "- "
      ++ limit_display_text item.text
      ++ when_given (λ at. day_text (day_and_time at)) item.reminder_at

  pub format_grouped_one_time_line : TodoItem → JsText
  unfolding limit_display_text
  format_grouped_one_time_line item =
      units "- "
      ++ limit_display_text item.text
      ++ when_given (λ at. day_text (day_and_time at)) item.reminder_at
      ++ when_given (λ reason. units " - " ++ reason) item.reason

  abbrev group : (TodoItem → JsText) → List TodoItem → List JsText
  group line_of [] = units "_None._" ∷ []
  group line_of (item ∷ items) = map line_of (item ∷ items)

  abbrev grouped_header : ChannelTodoState → Option JsText → List JsText
  grouped_header list none = (units "# " ++ get_or_else list.title (units "To-do list")) ∷ [] ∷ []
  grouped_header list (some []) =
      (units "# " ++ get_or_else list.title (units "To-do list")) ∷ [] ∷ []
  grouped_header list (some (unit ∷ instructions)) =
      (units "# " ++ get_or_else list.title (units "To-do list"))
      ∷ []
      ∷ (unit ∷ instructions)
      ∷ []
      ∷ []

  abbrev grouped_lines : ChannelTodoState → List TodoItem → List JsText
  unfolding format_grouped_repeat_line format_grouped_one_time_line
  grouped_lines list [] = get_or_else list.empty_text (units "_Nothing here yet._") ∷ []
  grouped_lines list (item ∷ items) =
      units "**Repeat**"
        ∷ group format_grouped_repeat_line
            (filter (λ item. is_given item.reminder_repeat) (item ∷ items))
      ++ []
        ∷ units "**One time**"
        ∷ group format_grouped_one_time_line
            (filter (λ item. not (is_given item.reminder_repeat)) (item ∷ items))

  pub format_grouped_reminder_list : ChannelTodoState → JsText
  unfolding grouped_lines
  format_grouped_reminder_list list =
      join_lines (grouped_header list list.instructions ++ grouped_lines list list.items)

  -- `formatTodoList`
  unfoldable pub format_todo_list : ChannelTodoState → JsText
  unfolding format_grouped_reminder_list format_todo_line list_lines header_lines
  format_todo_list list =
      if list.grouped_reminders
      then format_grouped_reminder_list list
      else list_lines format_todo_line list.empty_text (header_lines list) list.items
