-- ===== src/Examples/Commanding.antt =====
-- Runs of the operator's command line.
use toy_brain.Prelude.{◌≡◌, refl, arith, codes, Text, leb, some, ◌++◌, false, eq_text}
use toy_brain.Prelude.Outcome.{ok}
use toy_brain.Fraction.{ratio}
use toy_brain.Llm.Parse.{lstrip, rstrip}
use toy_brain.Commands.{no_fields, stream_append, Command, stream_append_payload}
use toy_brain.Commands.Make.{make_command}
use toy_brain.Commands.Payloads.{Carries, make_command-Carries}
use toy_brain.CommandLine.{Runtime, parsed}
use toy_brain.CommandLine.Handlers.{parse}
use toy_brain.CommandLine.Replies.{Replies}
use toy_brain.CommandLine.Returns.{parse_returns}
use toy_brain.CommandLine.Queue.{Ascii, IsTrimmed, parse-queued, queued}
use toy_brain.Tlica.Profile.{cogito_id}
use toy_brain.Development.Ids.{text_is_acceptable}

abbrev desk : Runtime
desk = record {
  printable = λ c. leb 32 c;
  is_space = λ c. leb c 32;
  lower = λ s. s;
  repr = λ s. codes "'" ++ s ++ codes "'";
  path_of = λ s. s;
  parse_fraction = λ s. ok (ratio 1 2);
  reason = λ s x. codes "refused";
}

desk-Ascii : Ascii desk
desk-Ascii = record { space = refl; visible = λ c h. ground arith; lowered = λ s h. refl }

abbrev hello : Text
hello = codes "hello world"

hello-IsTrimmed : IsTrimmed desk.is_space hello
unfolding lstrip rstrip
hello-IsTrimmed = record { text_given = refl; left = refl; right = refl }

queue_free : eq_text (codes "bread") cogito_id ≡ false
unfolding eq_text cogito_id
queue_free = refl

parse-queued_example :
    parse desk (codes "/queue bread hello world") ≡ ok (parsed (queued (codes "bread") hello))
parse-queued_example =
    parse-queued desk desk-Ascii (codes "bread") hello (refl, refl) refl queue_free hello-IsTrimmed
      refl refl

parse_returns_example : Replies desk (parse desk (codes "/db-backup file:x --force"))
parse_returns_example =
    parse_returns desk (record { question = refl; ellipsis = refl })
      (codes "/db-backup file:x --force")

abbrev appended : Command
appended = record { kind = stream_append; payload = some (stream_append_payload hello) }

append_made :
    make_command desk.printable desk.lower desk.parse_fraction stream_append
      (record no_fields { stream_text = some hello })
    ≡ ok appended
unfolding make_command text_is_acceptable eq_text cogito_id
append_made = refl

make_command-Carries_example :
    (appended.kind ≡ stream_append)
    × Carries desk.printable desk.lower desk.parse_fraction stream_append appended.payload
make_command-Carries_example =
    make_command-Carries desk.printable desk.lower desk.parse_fraction stream_append
      (record no_fields { stream_text = some hello }) append_made
