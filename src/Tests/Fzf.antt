-- ===== src/Tests/Fzf.antt =====
-- What goes to fzf and comes back from it, at concrete inputs.
use shell_picker.Base.{
  ◌≡◌, refl, true, none, some, List, [], ◌∷◌, ◌++◌, Bytes, codes, arith, All, ok, ◌≤◌, inl,
  bytes_eq, if◌then◌else◌, length, false,
}
use shell_picker.Protocol.Types.{insert, on, Effect, no_effect, cp}
use shell_picker.Protocol.Record.Frames.{frames}
use shell_picker.Fzf.Render.{load_command}
use shell_picker.Fzf.Output.{Selection, pos, parse_output, enter_key, accepted_selection}
use shell_picker.Fzf.Output.Frames.{NoNul}
use shell_picker.Fzf.Output.Reads.{Reads, cp_enter, parse_output_sound, parse_output-frames}
use shell_picker.Fzf.Input.{
  InputStream, Call, read, append, append_after, close_with_error, new_input_stream,
}
use shell_picker.Fzf.Input.Order.{run_calls, delivered_by, taken_by, concat_by, run_calls-conserves}
use shell_picker.Base.Decimal.{decimal}
use shell_picker.Callback.Finder.{parse_canonical_decimal}
use shell_picker.Callback.Finder.Counts.{parse_canonical_decimal-decimal}
use shell_picker.Callback.Grammar.{load_of, parse}
use shell_picker.Callback.Grammar.RoundTrip.{IsLoad, parse-load_command, parse_load_sound}

abbrev reloading : Effect
reloading = record (no_effect) {
  prompt = codes "[I] ";
  search = on;
  rebind = insert;
  reload_generation = 4;
}

abbrev texts : List Bytes
texts = enter_key ∷ codes "one" ∷ codes "two" ∷ []

texts-NoNul : All NoNul texts
texts-NoNul = (refl, (refl, (refl, tt)))

abbrev two_lines : Selection
two_lines = accepted_selection (pos 0) [] enter_key (codes "one" ∷ codes "two" ∷ [])

parse_output-frames_example : parse_output cp (frames texts) (pos 0) ≡ ok two_lines
parse_output-frames_example =
    parse_output-frames cp texts (pos 0) two_lines texts-NoNul (cp_enter refl)

texts_read : parse_output cp (frames texts) (pos 0) ≡ ok two_lines
texts_read = parse_output-frames cp texts (pos 0) two_lines texts-NoNul (cp_enter refl)

parse_output_sound_example :
    (fs : List Bytes) × (frames fs ≡ frames texts) × All NoNul fs × Reads cp fs (pos 0) two_lines
parse_output_sound_example = parse_output_sound cp (frames texts) (pos 0) two_lines texts_read

abbrev calls : List Call
calls =
    read 2
    ∷ append (codes "def")
    ∷ append_after (codes "x") (some (some (codes "stale")))
    ∷ close_with_error none
    ∷ append (codes "late")
    ∷ read 9
    ∷ []

run_calls-conserves_example :
    let (s, replies) = run_calls (new_input_stream (codes "abc")) calls in
    concat_by delivered_by replies ++ s.buffer ≡ codes "abc" ++ concat_by taken_by replies
run_calls-conserves_example = run_calls-conserves (new_input_stream (codes "abc")) calls

abbrev closed_stream : InputStream
closed_stream = record { buffer = codes "abc"; closed = true; cause = some (codes "gone") }

parse-load_command_example : parse (load_command 12 7) ≡ ok (load_of 12 7)
parse-load_command_example = parse-load_command 12 7 (omega arith) (omega arith) (omega arith)

loaded : parse (load_command 12 7) ≡ ok (load_of 12 7)
loaded = parse-load_command 12 7 (omega arith) (omega arith) (omega arith)

parse_load_sound_example : IsLoad (load_command 12 7) (load_of 12 7)
parse_load_sound_example = parse_load_sound (load_command 12 7) (load_of 12 7) loaded refl

abbrev fzf_env : Bytes → Bytes
fzf_env name =
    if bytes_eq name (codes "FZF_MATCH_COUNT")
    then codes "7"
    else if bytes_eq name (codes "FZF_TOTAL_COUNT")
    then codes "42"
    else codes "2"

two_digits : length (decimal 42) ≤ 4
unfolding decimal
two_digits = omega arith

read_back : parse_canonical_decimal (decimal 42) 1000 4 false ≡ some 42
read_back =
    parse_canonical_decimal-decimal 42 1000 4 false (omega arith) two_digits (inl (omega arith))
