-- ===== src/TodoFormat/Shown.antt =====
-- Each item of a todo list is shown or counted: src/surfaces/discord/shared/todo-format.ts.
use sandi.Prelude.{
  ℕ, suc, ◌+◌, ◌-◌, ◌≡◌, refl, sym, subst, ap, ◌∙◌, false, List, [], ◌∷◌, ◌++◌, map, if_ind, length,
  length-append, arith, ltb, Option,
}
use mathlib.Core.List.{
  Sublistᴰ, reverse, reverse-cons, reverse-append, reverse-reverse, append_assoc,
}
use sandi.Prelude.Sublists.{append-nil, length-reverse}
use sandi.TodoFormat.{
  JsText, TodoItem, ChannelTodoState, shown_text, show_loop, hidden_note, list_lines, join_lines,
  header_lines, format_todo_line, format_todo_list, discord_message_limit,
}

module _ (line_of : TodoItem → JsText) (lines : List JsText) where
  pub show_loop-length :
      (rest visible : List TodoItem) (hidden : ℕ)
      → length (show_loop line_of lines rest visible hidden).0
          + (show_loop line_of lines rest visible hidden).1
        ≡ length rest + length visible + hidden
  unfolding show_loop
  show_loop-length [] visible hidden = omega arith
  show_loop-length (item ∷ more) visible hidden =
      if_ind
        (λ (shown : List TodoItem × ℕ).
          length shown.0 + shown.1 ≡ suc (length more) + length visible + hidden)
        (ltb (discord_message_limit - 80)
          (length (shown_text line_of lines visible (line_of item ∷ []))))
        (λ _. omega (arith, show_loop-length more visible (hidden + 1)))
        (λ _. omega (
          arith,
          show_loop-length more (visible ++ item ∷ []) hidden,
          length-append visible (item ∷ []),
        ))

  show_loop-Sublist :
      (rest visible passed : List TodoItem) (hidden : ℕ)
      → Sublistᴰ (reverse visible) passed
      → Sublistᴰ (reverse (show_loop line_of lines rest visible hidden).0) (reverse rest ++ passed)
  unfolding show_loop
  show_loop-Sublist [] visible passed hidden s = s
  show_loop-Sublist (item ∷ more) visible passed hidden s =
      subst (Sublistᴰ (reverse (show_loop line_of lines (item ∷ more) visible hidden).0))
        (sym (
          ap (λ xs. xs ++ passed) (reverse-cons item more)
          ∙ append_assoc (reverse more) (item ∷ []) passed))
        (if_ind
          (λ (shown : List TodoItem × ℕ).
            Sublistᴰ (reverse shown.0) (reverse more ++ item ∷ passed))
          (ltb (discord_message_limit - 80)
            (length (shown_text line_of lines visible (line_of item ∷ []))))
          (λ _. show_loop-Sublist more visible (item ∷ passed) (hidden + 1) (Sublistᴰ.cons s))
          (λ _. show_loop-Sublist more (visible ++ item ∷ []) (item ∷ passed) hidden (
            subst (λ xs. Sublistᴰ xs (item ∷ passed)) (sym (reverse-append visible (item ∷ [])))
              (Sublistᴰ.cons-cons refl s))))

-- What the text of a list shows: some of its items, in the order of the list, and how many others there are.
pub record Shows (line_of : TodoItem → JsText) (list : ChannelTodoState) (text : JsText)
    : Type 0 where
  pub visible : List TodoItem
  pub hidden : ℕ
  pub all_counted : length visible + hidden ≡ length list.items
  pub in_order : Sublistᴰ visible list.items
  pub text_is : text ≡ join_lines ((header_lines list ++ hidden_note hidden) ++ map line_of visible)

list_lines-Shows :
    (line_of : TodoItem → JsText) (list : ChannelTodoState) (item : TodoItem) (more : List TodoItem)
    → list.items ≡ item ∷ more
    → Shows line_of list (list_lines line_of list.empty_text (header_lines list) list.items)
unfolding list_lines
list_lines-Shows line_of list item more e =
    let shown = show_loop line_of (header_lines list) (reverse (item ∷ more)) [] 0 in
    record {
      visible = reverse shown.0;
      hidden = shown.1;
      all_counted =
          ap (λ n. n + shown.1) (length-reverse shown.0)
          ∙ show_loop-length line_of (header_lines list) (reverse (item ∷ more)) [] 0
          ∙ omega (arith, length-reverse (item ∷ more))
          ∙ ap length (sym e);
      in_order =
          subst (Sublistᴰ (reverse shown.0))
            (append-nil (reverse (reverse (item ∷ more))) ∙ reverse-reverse (item ∷ more) ∙ sym e)
            (show_loop-Sublist line_of (header_lines list) (reverse (item ∷ more)) [] [] 0
              Sublistᴰ.slnil);
      text_is = ap (list_lines line_of list.empty_text (header_lines list)) e;
    }

-- The text of a list that has items, in the default display mode, shows some of the items in the order of
-- the list, one line for each, and says how many others there are: each item is shown or counted.
pub format_todo_list-Shows :
    (epoch_seconds : JsText → Option JsText) (day_and_time : JsText → Option (JsText × JsText))
    (list : ChannelTodoState) (item : TodoItem) (more : List TodoItem)
    → list.grouped_reminders ≡ false
    → list.items ≡ item ∷ more
    → Shows
        (format_todo_line epoch_seconds day_and_time)
        list
        (format_todo_list epoch_seconds day_and_time list)
unfolding format_todo_list
format_todo_list-Shows epoch_seconds day_and_time list item more default e =
    subst (Shows (format_todo_line epoch_seconds day_and_time) list) (ground (arith, default))
      (list_lines-Shows (format_todo_line epoch_seconds day_and_time) list item more e)
