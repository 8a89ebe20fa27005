-- ===== src/TodoFormat/Fits.antt =====
-- The text of a todo list fits one Discord message: src/surfaces/discord/shared/todo-format.ts.
use sandi.Prelude.{
  ℕ, zero, suc, ◌+◌, ◌-◌, ◌≤◌, ◌<◌, ◌/◌, ◌%◌, ◌≡◌, refl, sym, subst, ap, ◌∙◌, Bool, true, false,
  List, [], ◌∷◌, ◌++◌, map, if◌then◌else◌, if_ind, length, length-append, arith, ltb, eqb, Option,
}
use mathlib.Core.List.{reverse, reverse-cons, map-append}
use sandi.Prelude.Sublists.{length-reverse}
use sandi.TodoFormat.Units.{units}
use sandi.TodoFormat.{
  JsText, TodoItem, ChannelTodoState, digits, decimal, shown_text, show_loop, hidden_note,
  finish_list, list_lines, join_lines, header_lines, format_todo_line, format_todo_list,
  discord_message_limit,
}
use sandi.TodoFormat.Shown.{show_loop-length}

-- The length of the joined lines, with one more line end.
unfoldable cost : List JsText → ℕ
cost [] = 0
cost (line ∷ lines) = length line + 1 + cost lines

cost-append : (front back : List JsText) → cost (front ++ back) ≡ cost front + cost back
unfolding cost
cost-append [] back = omega arith
cost-append (line ∷ front) back = omega (arith, cost-append front back)

cost-le : (lines : List JsText) → cost lines ≤ suc (length (join_lines lines))
unfolding cost
cost-le [] = omega arith
cost-le (line ∷ []) = omega arith
cost-le (line ∷ next ∷ more) =
    omega (arith, cost-le (next ∷ more), length-append line (10 ∷ join_lines (next ∷ more)))

length-join_lines : (lines : List JsText) → length (join_lines lines) ≤ cost lines
unfolding cost
length-join_lines [] = omega arith
length-join_lines (line ∷ []) = omega arith
length-join_lines (line ∷ next ∷ more) =
    omega
      (arith, length-join_lines (next ∷ more), length-append line (10 ∷ join_lines (next ∷ more)))

module _ (line_of : TodoItem → JsText) where
  abbrev item_cost : List TodoItem → ℕ
  item_cost items = cost (map line_of items)

  item_cost-append :
      (front back : List TodoItem) → item_cost (front ++ back) ≡ item_cost front + item_cost back
  item_cost-append front back =
      ap cost (map-append line_of front back) ∙ cost-append (map line_of front) (map line_of back)

  item_cost-reverse : (items : List TodoItem) → item_cost (reverse items) ≡ item_cost items
  unfolding cost
  item_cost-reverse [] = refl
  item_cost-reverse (item ∷ items) =
      ap item_cost (reverse-cons item items)
      ∙ omega (arith, item_cost-append (reverse items) (item ∷ []), item_cost-reverse items)

  -- What is shown stays within the limit of the loop.
  show_loop-cost :
      (lines : List JsText) (rest visible : List TodoItem) (hidden : ℕ)
      → cost lines + item_cost visible ≤ 1921
      → cost lines + item_cost (show_loop line_of lines rest visible hidden).0 ≤ 1921
  unfolding show_loop cost
  show_loop-cost lines [] visible hidden h = h
  show_loop-cost lines (item ∷ more) visible hidden h =
      if_ind (λ (shown : List TodoItem × ℕ). cost lines + item_cost shown.0 ≤ 1921)
        (ltb (discord_message_limit - 80)
          (length (shown_text line_of lines visible (line_of item ∷ []))))
        (λ _. show_loop-cost lines more visible (hidden + 1) h)
        (λ short.
          let fits : length (shown_text line_of lines visible (line_of item ∷ [])) ≤ 1920 =
            ground (arith, short) in
          show_loop-cost lines more (visible ++ item ∷ []) hidden (
            omega (
              arith,
              fits,
              item_cost-append visible (item ∷ []),
              item_cost-reverse visible,
              cost-append (lines ++ map line_of (reverse visible)) (line_of item ∷ []),
              cost-append lines (map line_of (reverse visible)),
              cost-le (lines ++ map line_of (reverse visible) ++ line_of item ∷ []),
            )))

digits-small : (fuel n : ℕ) → n < 10 → length (digits (suc fuel) n) ≡ 1
unfolding digits
digits-small fuel n h = ground (arith, h)

decimal-short : (n : ℕ) → n < 100 → length (decimal n) ≤ 2
unfolding digits
decimal-short zero h = omega arith
decimal-short (suc n) h = ground (
  arith,
  h,
  digits-small n (suc n / 10) (omega (arith, h)),
  length-append (digits (suc n) (suc n / 10)) ((48 + suc n % 10) ∷ []),
)

plural : Bool → JsText
plural one = if one then [] else units "s"

plural-short : (one : Bool) → length (plural one) ≤ 1
unfolding plural
plural-short true = omega arith
plural-short false = omega arith

hidden_note-cost : (n : ℕ) → n < 100 → cost (hidden_note n) ≤ 78
unfolding cost plural
hidden_note-cost zero h = omega arith
hidden_note-cost (suc n) h =
    let s = plural (eqb (suc n) 1) in
    let counted = units "_Plus " ++ decimal (suc n) in
    omega (
      arith,
      decimal-short (suc n) h,
      plural-short (eqb (suc n) 1),
      length-append (units "_Plus ") (decimal (suc n)),
      length-append counted (units " older item"),
      length-append (counted ++ units " older item") s,
      length-append (counted ++ units " older item" ++ s)
          (units " hidden to keep this in one Discord message._"),
    )

finish_list-fits :
    (line_of : TodoItem → JsText) (lines : List JsText) (shown : List TodoItem × ℕ)
    → shown.1 < 100
    → cost lines + cost (map line_of shown.0) ≤ 1921
    → length (finish_list line_of lines shown) ≤ discord_message_limit
finish_list-fits line_of lines (visible, hidden) few h = omega (
  arith,
  h,
  hidden_note-cost hidden few,
  cost-append lines (hidden_note hidden),
  cost-append (lines ++ hidden_note hidden) (map line_of (reverse visible)),
  item_cost-reverse line_of visible,
  length-join_lines ((lines ++ hidden_note hidden) ++ map line_of (reverse visible)),
)

list_lines-fits :
    (line_of : TodoItem → JsText) (empty_text : Option JsText) (lines : List JsText)
    (item : TodoItem) (more : List TodoItem)
    → length (item ∷ more) < 100
    → length (join_lines lines) ≤ 1920
    → length (list_lines line_of empty_text lines (item ∷ more)) ≤ discord_message_limit
unfolding list_lines cost
list_lines-fits line_of empty_text lines item more few short =
    let shown = show_loop line_of lines (reverse (item ∷ more)) [] 0 in
    finish_list-fits line_of lines shown
      (omega (
        arith,
        few,
        show_loop-length line_of lines (reverse (item ∷ more)) [] 0,
        length-reverse (item ∷ more),
      ))
      (show_loop-cost line_of lines (reverse (item ∷ more)) [] 0
        (omega (arith, cost-le lines, short)))

-- The text of a list that has items, fewer than a hundred, in the default display mode, is no longer than
-- the limit of a Discord message, whatever its items are, where its title and instructions take at most 1920
-- of the 2000 code units.
pub format_todo_list-fits :
    (epoch_seconds : JsText → Option JsText) (day_and_time : JsText → Option (JsText × JsText))
    (list : ChannelTodoState) (item : TodoItem) (more : List TodoItem)
    → list.grouped_reminders ≡ false
    → list.items ≡ item ∷ more
    → length list.items < 100
    → length (join_lines (header_lines list)) ≤ 1920
    → length (format_todo_list epoch_seconds day_and_time list) ≤ discord_message_limit
unfolding format_todo_list
format_todo_list-fits epoch_seconds day_and_time list item more default e few short =
    let line_of = format_todo_line epoch_seconds day_and_time in
    let text : format_todo_list epoch_seconds day_and_time list
        ≡ list_lines line_of list.empty_text (header_lines list) (item ∷ more) =
      ground (arith, default) ∙ ap (list_lines line_of list.empty_text (header_lines list)) e in
    subst (λ (t : JsText). length t ≤ discord_message_limit) (sym text)
      (list_lines-fits line_of list.empty_text (header_lines list) item more
        (subst (λ (items : List TodoItem). length items < 100) e few) short)
