-- ===== src/ResponseBuffer/Settle.antt =====
-- What settling makes of the streamed text: app/src/shared/response-buffer.ts.
use Prim.Native.String.{[], ◌∷◌, ◌++◌}
use package.text.Mathlib.TextLemmas.{append-nil, nil-append, cons-append}
use sandi.Prelude.{
  inl, inr, Bool-cases, if◌then◌else◌, ◌==◌, ◌&&◌, ◌||◌, not, String, true, ◌≡◌, ◌≢◌, false, refl,
  ap, ◌⊎◌, arith, eq_iff, ◌∙◌, sym, subst,
}
use sandi.Prelude.Text.{trim, is_empty}
use sandi.ResponseBuffer.{
  ResponseBuffer, take_as, slice_after, starts_with, reconcile_suffix, settle,
}

take_as-slice_after : (p s : String) → take_as p s ++ slice_after p s ≡ s
unfolding take_as slice_after
take_as-slice_after [] s = nil-append s
take_as-slice_after (c ∷ p) [] = nil-append []
take_as-slice_after (c ∷ p) (d ∷ s) =
    cons-append d (take_as p s) (slice_after p s) ∙ ap (λ t. d ∷ t) (take_as-slice_after p s)

starts_with-append : (p s : String) → starts_with s p ≡ true → p ++ slice_after p s ≡ s
unfolding starts_with
starts_with-append p s e =
    ap (λ t. t ++ slice_after p s) (sym ((eq_iff (take_as p s) p).0 e)) ∙ take_as-slice_after p s

starts_with-newline : (s : String) → starts_with ("\n" ++ s) "\n" ≡ true
unfolding starts_with take_as
starts_with-newline s =
    ap (λ t. starts_with t "\n") (cons-append "\n" "" s ∙ ap (λ t. "\n" ∷ t) (nil-append s))

starts_with-none : starts_with "" "\n" ≡ false
unfolding starts_with take_as
starts_with-none = refl

-- What `reconcileSuffix` gives, case by case.
reconcile_goes_on :
    (streamed final : String)
    → starts_with final streamed ≡ true
    → reconcile_suffix streamed final ≡ slice_after streamed final
unfolding reconcile_suffix slice_after
reconcile_goes_on streamed final e = elim (Bool-cases (is_empty streamed)) [
  | inl none_streamed ↦
      subst (λ s. reconcile_suffix s final ≡ slice_after s final)
        (sym ((eq_iff streamed "").0 none_streamed)) refl
  | inr some_streamed ↦ ground (arith, e, some_streamed)
]

starts_with-empty : (s : String) → starts_with s "" ≡ true
unfolding starts_with take_as
starts_with-empty s = refl

nonempty :
    (streamed final : String) → starts_with final streamed ≡ false → is_empty streamed ≡ false
nonempty streamed final e = elim (Bool-cases (is_empty streamed)) [
  | inl none_streamed ↦
      let clash : true ≡ false =
        sym (starts_with-empty final)
        ∙ ap (starts_with final) (sym ((eq_iff streamed "").0 none_streamed))
        ∙ e in
      absurd (ground (arith, clash))
  | inr some_streamed ↦ some_streamed
]

reconcile_covered :
    (streamed final : String)
    → starts_with final streamed ≡ false
    → (starts_with streamed final ≡ true) ⊎ (trim streamed ≡ trim final)
    → reconcile_suffix streamed final ≡ ""
unfolding reconcile_suffix
reconcile_covered streamed final e c =
    ground (arith, e, c, nonempty streamed final e, eq_iff (trim streamed) (trim final))

reconcile_differs :
    (streamed final : String)
    → starts_with final streamed ≡ false
    → starts_with streamed final ≡ false
    → trim streamed ≢ trim final
    → reconcile_suffix streamed final ≡ "\n" ++ final
unfolding reconcile_suffix
reconcile_differs streamed final e c d =
    ground (arith, e, c, d, nonempty streamed final e, eq_iff (trim streamed) (trim final))

settled_text : String → ResponseBuffer → String → String
settled_text final buffer suffix =
    if starts_with suffix "\n" && not (is_empty buffer.streamed)
    then final
    else buffer.streamed ++ suffix

settle-suffix :
    (final : String) (buffer : ResponseBuffer) {suffix : String}
    → reconcile_suffix buffer.streamed final ≡ suffix
    → ((settle final buffer).0.streamed ≡ settled_text final buffer suffix)
      × ((settle final buffer).1 ≡ suffix)
unfolding settle settled_text
settle-suffix final buffer e = (ap (settled_text final buffer) e, e)

-- Settling closes the buffer. Where the final text goes on from the streamed text, the buffer's text is then the
-- final text, and what is displayed is the part that the streamed text lacks. Otherwise, where the final
-- text is a beginning of the streamed text or equals it up to outer white space, the streamed text stays and
-- nothing is displayed. In all other cases the buffer's text is the final text, and all of it is displayed
-- on a new line.
pub settle-streamed :
    (final : String) (buffer : ResponseBuffer)
    → ((settle final buffer).0.ended ≡ true)
      × (((starts_with final buffer.streamed ≡ true)
            × ((settle final buffer).0.streamed ≡ final)
            × (buffer.streamed ++ (settle final buffer).1 ≡ final))
          ⊎ ((starts_with final buffer.streamed ≡ false)
              × ((starts_with buffer.streamed final ≡ true) ⊎ (trim buffer.streamed ≡ trim final))
              × ((settle final buffer).0.streamed ≡ buffer.streamed)
              × ((settle final buffer).1 ≡ ""))
          ⊎ ((starts_with final buffer.streamed ≡ false)
              × (starts_with buffer.streamed final ≡ false)
              × (trim buffer.streamed ≢ trim final)
              × ((settle final buffer).0.streamed ≡ final)
              × ((settle final buffer).1 ≡ "\n" ++ final)))
unfolding settle settled_text
settle-streamed final buffer = (
  settle-ended,
  elim (Bool-cases (starts_with final buffer.streamed)) [
    | inl on ↦
        let (text, shown) =
          settle-suffix final buffer (reconcile_goes_on buffer.streamed final on) in
        let whole = starts_with-append buffer.streamed final on in
        inl (
          on,
          text ∙ settled-goes_on (slice_after buffer.streamed final) whole,
          ap (λ t. buffer.streamed ++ t) shown ∙ whole,
        )
    | inr off ↦
        elim (Bool-cases
          (starts_with buffer.streamed final || trim buffer.streamed == trim final)) [
            | inl covered ↦
                let why : (starts_with buffer.streamed final ≡ true)
                    ⊎ (trim buffer.streamed ≡ trim final) =
                  ground (arith, covered, eq_iff (trim buffer.streamed) (trim final)) in
                let (text, shown) =
                  settle-suffix final buffer (reconcile_covered buffer.streamed final off why) in
                inr (inl (off, why, text ∙ settled-empty, shown))
            | inr differs ↦
                let c : starts_with buffer.streamed final ≡ false = ground (arith, differs) in
                let d : trim buffer.streamed ≢ trim final =
                  ground (arith, differs, eq_iff (trim buffer.streamed) (trim final)) in
                let (text, shown) =
                  settle-suffix final buffer (reconcile_differs buffer.streamed final off c d) in
                inr (inr (off, c, d, text ∙ settled-differs off, shown))
          ]
  ],
)
  where
    settle-ended : (settle final buffer).0.ended ≡ true
    settle-ended = refl

    settled-goes_on :
        (rest : String) → buffer.streamed ++ rest ≡ final → settled_text final buffer rest ≡ final
    settled-goes_on rest whole = ground (arith, whole)

    settled-empty : settled_text final buffer "" ≡ buffer.streamed
    settled-empty = ground (arith, starts_with-none, append-nil buffer.streamed)

    settled-differs :
        starts_with final buffer.streamed ≡ false
        → settled_text final buffer ("\n" ++ final) ≡ final
    settled-differs off =
        ground (arith, starts_with-newline final, nonempty buffer.streamed final off)
