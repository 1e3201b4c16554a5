-- ===== src/CommandLine/Returns.antt =====
-- From the handlers' answers to the parser's: each verb of the list has its handler, and a text that
-- does not begin with space has a first word.
use mathlib.Core.Path.{subst}
use toy_brain.Prelude.{
  ℕ, Option, none, some, Text, codes, Bool, ◌∷◌, [], true, false, ◌==◌, ◌≡◌, refl, eq_text,
  if◌then◌else◌, sym,
}
use toy_brain.Prelude.FrozenSet.{contains}
use toy_brain.CommandLine.Messages.{Marks}
use toy_brain.Prelude.FrozenSet.{all-contains}
use toy_brain.CommandLine.{
  Runtime, route, local_command_verbs, Route, no_args, queue_args, stream_args, stream_promote_args,
  db_backup_args, autosave_enable_args, split_once, split_stripped, first_word, after_word,
  with_rest,
}
use toy_brain.CommandLine.Handlers.{
  error, run_route, dispatch, run_verb, parse_queue, parse_stream, parse_stream_promote,
  parse_db_backup, parse_autosave_enable, parse_body, parse_stripped, parse, run_tokens,
}
use toy_brain.Llm.Parse.{strip, rstrip, lstrip}
use toy_brain.CommandLine.Replies.{
  Replies, served, error-Replies, if-Replies, parse_no_args-Replies, queue_parts-Replies,
  make_stream-Replies, promote_parts-Replies, backup_loop-Replies, enable_parts-Replies,
}

-- every verb of the list has its branch
route_known : (verb : Text) → contains verb local_command_verbs ≡ true → served (route verb) ≡ true
unfolding route eq_text
route_known verb h = all-contains (λ v. served (route v)) verb local_command_verbs refl h

module _ (r : Runtime) (marks : Marks r.printable) where
  run_route-Replies :
      (way : Route) (verb remainder : Text)
      → served (some way) ≡ true
      → Replies r (run_route r way verb remainder)
  unfolding run_route parse_queue parse_stream parse_stream_promote parse_db_backup
      parse_autosave_enable
  run_route-Replies (no_args kind) verb remainder h =
      parse_no_args-Replies r marks verb remainder kind h
  run_route-Replies queue_args verb remainder h =
      search (if-Replies r marks, error-Replies r marks, queue_parts-Replies r marks)
  run_route-Replies stream_args verb remainder h =
      make_stream-Replies r marks remainder (rstrip (λ c. c == 10) remainder)
  run_route-Replies stream_promote_args verb remainder h =
      search (if-Replies r marks, error-Replies r marks, promote_parts-Replies r marks)
  run_route-Replies db_backup_args verb remainder h =
      search (if-Replies r marks, error-Replies r marks, backup_loop-Replies r marks)
  run_route-Replies autosave_enable_args verb remainder h =
      search (if-Replies r marks, error-Replies r marks, enable_parts-Replies r marks)

  dispatch-Replies :
      (verb remainder : Text) (way : Option Route)
      → served way ≡ true
      → Replies r (dispatch r verb remainder way)
  unfolding dispatch
  dispatch-Replies verb remainder none h = absurd (cc h)
  dispatch-Replies verb remainder (some way) h = run_route-Replies way verb remainder h

  run_verb-Replies : (verb remainder : Text) → Replies r (run_verb r verb remainder)
  unfolding run_verb
  run_verb-Replies verb remainder = by_list (contains verb local_command_verbs) refl
    where
      by_list :
          (b : Bool) → contains verb local_command_verbs ≡ b → Replies r (run_verb r verb remainder)
      by_list true h = rw h (dispatch-Replies verb remainder (route verb) (route_known verb h))
      by_list false h = rw h (search (error-Replies r marks))

  some_tokens-Replies : (word rest : Text) → Replies r (run_tokens r (with_rest word rest))
  unfolding run_tokens
  some_tokens-Replies word [] = run_verb-Replies (r.lower word) []
  some_tokens-Replies word (c ∷ s) = run_verb-Replies (r.lower word) (c ∷ s)

  -- A text that does not begin with space has a first word.
  run_tokens-Replies :
      (c : ℕ) (s : Text)
      → r.is_space c ≡ false
      → Replies r (run_tokens r (split_once r.is_space (c ∷ s)))
  unfolding split_once split_stripped lstrip
  run_tokens-Replies c s h = rw h (
      some_tokens-Replies (first_word r.is_space (c ∷ s))
        (lstrip r.is_space (after_word r.is_space (c ∷ s))))

  parse_body-Replies : (body : Text) → Replies r (parse_body r body)
  unfolding parse_body
  parse_body-Replies [] = search (error-Replies r marks)
  parse_body-Replies (c ∷ s) = after_slash (r.is_space c) refl
    where
      after_slash : (b : Bool) → r.is_space c ≡ b → Replies r (parse_body r (c ∷ s))
      after_slash true h = rw (parse_body, h) (search (error-Replies r marks))
      after_slash false h =
          subst
            (λ b. Replies r (
              if b
              then error r (codes "expected verb after '/'")
              else run_tokens r (split_once r.is_space (c ∷ s))))
            (sym h) (run_tokens-Replies c s h)

  parse_stripped-Replies : (line : Text) → Replies r (parse_stripped r line)
  unfolding parse_stripped
  parse_stripped-Replies [] = search (error-Replies r marks)
  parse_stripped-Replies (c ∷ body) =
      search (if-Replies r marks, error-Replies r marks, parse_body-Replies)

  -- Let `?` and the ellipsis be printable. The parser returns on every line, without an exception:
  -- it gives a command that carries what its kind takes, or a message that is printable and has at
  -- most 240 characters.
  pub parse_returns : (line : Text) → Replies r (parse r line)
  unfolding parse
  parse_returns line = parse_stripped-Replies (strip r.is_space line)
