-- ===== src/Cli/Stream/Laws.antt =====
-- What the stream of a run looks like.
use ocpp_cli.Prelude.{
  ◌≡◌, refl, sym, ◌∙◌, ap, inl, inr, Option, none, some, List, [], ◌∷◌, ◌++◌, Option-cases,
}
use mathlib.Core.Path.{fun_ext}
use ocpp_cli.Errors.{Error}
use ocpp_cli.Cli.{Host, StreamEvent, Line}
use ocpp_cli.Cli.Stream.{
  Writer, Written, write_event, write_events, and_then, then_written, finish, closed_first,
  result_first, pump,
}

append_assoc : (xs ys zs : List Line) → (xs ++ ys) ++ zs ≡ xs ++ (ys ++ zs)
append_assoc [] ys zs = refl
append_assoc (x ∷ xs) ys zs = ap (λ l. x ∷ l) (append_assoc xs ys zs)

and_then-none :
    (first : Written) (next : Writer → Written)
    → first.error ≡ none
    → and_then first next ≡ then_written first (next first.writer)
unfolding and_then
and_then-none first next done = rw done refl

and_then-some :
    (first : Written) (next : Writer → Written) (e : Error)
    → first.error ≡ some e
    → and_then first next ≡ first
unfolding and_then
and_then-some first next e failed = rw failed refl

and_then_assoc :
    (first : Written) (f g : Writer → Written)
    → and_then (and_then first f) g ≡ and_then first (λ w. and_then (f w) g)
and_then_assoc first f g = elim (Option-cases first.error) [
  | inr (e, failed) ↦
      ap (λ x. and_then x g) (and_then-some first f e failed)
      ∙ (and_then-some first g e failed ∙ sym (and_then-some first _ e failed))
  | inl done ↦
      let second = f first.writer in
      let opened = ap (λ x. and_then x g) (and_then-none first f done) in
      let closed = sym (and_then-none first (λ w. and_then (f w) g) done) in
      elim (Option-cases second.error) [
        | inr (e, failed) ↦
            opened
            ∙ (and_then-some (then_written first second) g e failed
                ∙ (ap (then_written first) (sym (and_then-some second g e failed)) ∙ closed))
        | inl also ↦
            opened
            ∙ (and_then-none (then_written first second) g also
                ∙ (assoc second
                    ∙ (ap (then_written first) (sym (and_then-none second g also)) ∙ closed)))
      ]
]
  where
    assoc :
        (second : Written)
        → then_written (then_written first second) (g second.writer)
          ≡ then_written first (then_written second (g second.writer))
    assoc second =
        ap
          (λ lines. record {
            error = (g second.writer).error;
            writer = (g second.writer).writer;
            lines = lines;
          })
          (append_assoc first.lines second.lines (g second.writer).lines)

write_events-append :
    (h : Host) (w : Writer) (xs ys : List StreamEvent)
    → write_events h w (xs ++ ys) ≡ and_then (write_events h w xs) (λ w'. write_events h w' ys)
unfolding write_events
write_events-append h w [] ys = refl
write_events-append h w (x ∷ xs) ys =
    ap (and_then (write_event h w x)) (fun_ext (λ w'. write_events-append h w' xs ys))
    ∙ sym (
        and_then_assoc (write_event h w x) (λ w'. write_events h w' xs)
          (λ w'. write_events h w' ys))

-- Whichever channel the loop reads first, the result of the run or the events that are still
-- buffered: the same lines are written, in the order of the events, and the same error is returned.
pub pump-order :
    (h : Host) (w : Writer) (events rest : List StreamEvent) (result : Option Error)
    → pump h w (result_first events result rest) ≡ pump h w (closed_first (events ++ rest) result)
unfolding pump
pump-order h w events rest result =
    ap (λ done. finish done result) (sym (write_events-append h w events rest))
